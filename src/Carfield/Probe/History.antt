-- ===== src/Carfield/Probe/History.antt =====
-- What holds of the Carfield driver's devices over every sequence of probes and removals.
use hero_tools.Prelude.{
  ℕ, suc, ◌+◌, ◌-◌, ◌%◌, ◌^◌, ◌≤◌, ◌<◌, ◌≡◌, ◌≢◌, sym, ◌∙◌, ap, Bool, Option, some, List, [], ◌∷◌,
  ◌++◌, arith, length, length-append, ◌==◌, if◌then◌else◌,
}
use hero_tools.Prelude.Int.{ℤ, pos}
use hero_tools.Driver.Devices.{remove_first, unpublish}
use hero_tools.Driver.Devices.Laws.{count, count-remove_first, count-remove_first_other}
use hero_tools.Carfield.Probe.{
  Bus, Held, Bound, card_platform_driver_probe, card_platform_driver_remove,
}
use hero_tools.Carfield.Probe.Laws.{probe_refused, probe_accepted}

-- What Linux holds, and the data of the devices that are bound to the driver.
pub record System : Type 0 where
  pub held : Held
  pub bound : List Bound

module _ (linux_6_5 : Bool) (frees : ℕ → Bool) where
  -- Linux probes a device, which becomes bound if the probe returns 0, or removes a bound device.
  pub data Step (s t : System) : Type 0 where
    accepts :
        (b : Bus) (id : ℕ) (d : Bound)
        → b.char_dev.device_create < 2 ^ 64
        → card_platform_driver_probe linux_6_5 b id s.held ≡ some (pos 0, some d, t.held)
        → t.bound ≡ d ∷ s.bound
        → Step s t
    refuses :
        (b : Bus) (id : ℕ) (ret : ℤ) (d : Option Bound)
        → ret ≢ pos 0
        → card_platform_driver_probe linux_6_5 b id s.held ≡ some (ret, d, t.held)
        → t.bound ≡ s.bound
        → Step s t
    removes :
        (before : List Bound) (d : Bound) (after : List Bound)
        → s.bound ≡ before ++ (d ∷ after)
        → card_platform_driver_remove linux_6_5 frees d s.held ≡ some (pos 0, t.held)
        → t.bound ≡ before ++ after
        → Step s t

  pub data Reach (s : System) : System → Type 0 where
    here : Reach s s
    next : {t u : System} → Reach s t → Step t u → Reach s u

abbrev pub numbers : List Bound → List ℕ
numbers [] = []
numbers (d ∷ ds) = d.dev_num ∷ numbers ds

numbers-append :
    (n : ℕ) (xs ys : List Bound)
    → count n (numbers (xs ++ ys)) ≡ count n (numbers xs) + count n (numbers ys)
numbers-append n [] ys = omega arith
numbers-append n (d ∷ xs) ys = omega (arith, numbers-append n xs ys)

-- The IOMMU domains of the devices; 0 is NULL.
abbrev pub domains : List Bound → List ℕ
domains [] = []
domains (d ∷ ds) = d.iommu_domain ∷ domains ds

domains-append :
    (n : ℕ) (xs ys : List Bound)
    → count n (domains (xs ++ ys)) ≡ count n (domains xs) + count n (domains ys)
domains-append n [] ys = omega arith
domains-append n (d ∷ xs) ys = omega (arith, domains-append n xs ys)

-- Every bound device has its cdev and its file, no other has, and they are counted. No domain of a
-- bound device was freed.
pub record IsConsistent (s : System) : Type 0 where
  pub published : (n : ℕ) → count n s.held.devices.cdevs ≡ count n (numbers s.bound)
  pub with_files : s.held.devices.files ≡ s.held.devices.cdevs
  pub counted : s.held.devices.total_devices ≡ length s.bound % 2 ^ 32
  pub owned : (n : ℕ) → n ≢ 0 → count n (domains s.bound) ≤ count n s.held.domains

remove-devices :
    (linux_6_5 : Bool) (frees : ℕ → Bool) (d : Bound) (h h' : Held)
    → card_platform_driver_remove linux_6_5 frees d h ≡ some (pos 0, h')
    → (h'.devices.cdevs ≡ remove_first d.dev_num h.devices.cdevs)
      × (h'.devices.files ≡ remove_first d.dev_num h.devices.files)
      × (h'.devices.total_devices ≡ (h.devices.total_devices + 2 ^ 32 - 1) % 2 ^ 32)
unfolding card_platform_driver_remove unpublish
remove-devices linux_6_5 frees d h h' e = ground arith

remove-domains :
    (linux_6_5 : Bool) (frees : ℕ → Bool) (d : Bound) (h h' : Held) (n : ℕ)
    → card_platform_driver_remove linux_6_5 frees d h ≡ some (pos 0, h')
    → count n h.domains ≤ count n h'.domains + (if n == d.iommu_domain then 1 else 0)
unfolding card_platform_driver_remove
remove-domains linux_6_5 frees d h h' n e = ground (
  arith,
  count-remove_first n d.iommu_domain h.domains,
  count-remove_first_other n d.iommu_domain h.domains,
)

module _ (linux_6_5 : Bool) (frees : ℕ → Bool) where
  Step-IsConsistent : (s t : System) → Step linux_6_5 frees s t → IsConsistent s → IsConsistent t
  Step-IsConsistent s t (accepts b id d is64 probed e) c =
      let (cdevs, files, total, kept, domain, _) =
        probe_accepted linux_6_5 b id s.held d t.held is64 probed in
      record {
        published = λ n. rw (cdevs, e) (omega (arith, c.published n));
        with_files = files ∙ ap (λ l. d.dev_num ∷ l) c.with_files ∙ sym cdevs;
        counted = rw (total, e) (omega (arith, c.counted));
        owned = λ n real. rw e (ground (arith, kept, domain, c.owned n));
      }
  Step-IsConsistent s t (refuses b id ret d failed probed e) c =
      let (cdevs, files, total, kept) =
        probe_refused linux_6_5 b id s.held ret d t.held probed failed in
      record {
        published = λ n. rw (cdevs, e) (c.published n);
        with_files = files ∙ c.with_files ∙ sym cdevs;
        counted = rw (total, e) c.counted;
        owned = λ n real. rw e (ground (arith, kept, c.owned n));
      }
  Step-IsConsistent s t (removes before d after e removed e') c =
      let (cdevs, files, total) = remove-devices linux_6_5 frees d s.held t.held removed in
      let n_bound : length s.bound ≡ suc (length t.bound) =
        rw (e, e') (omega (arith, length-append before (d ∷ after), length-append before after)) in
      let in_bound : (n : ℕ)
          → count n (numbers s.bound)
            ≡ count n (numbers t.bound) + (if n == d.dev_num then 1 else 0) =
        λ n.
          rw (e, e')
            (ground (arith, numbers-append n before (d ∷ after), numbers-append n before after)) in
      let own : (n : ℕ)
          → count n (domains s.bound)
            ≡ count n (domains t.bound) + (if n == d.iommu_domain then 1 else 0) =
        λ n.
          rw (e, e')
            (ground (arith, domains-append n before (d ∷ after), domains-append n before after)) in
      record {
        published = λ n. rw cdevs (
            ground (
              arith,
              c.published n,
              c.published d.dev_num,
              in_bound n,
              in_bound d.dev_num,
              count-remove_first n d.dev_num s.held.devices.cdevs,
            ));
        with_files = files ∙ ap (remove_first d.dev_num) c.with_files ∙ sym cdevs;
        counted = rw total (omega (arith, c.counted, n_bound));
        owned = λ n real.
            ground
              (arith, own n, c.owned n, remove-domains linux_6_5 frees d s.held t.held n removed);
      }

  -- After any sequence of probes and removals from a consistent state the Carfield driver's state
  -- is consistent: the cdevs are those of the bound devices, as often each, the device files are
  -- the cdevs, `total_devices` is the number of bound devices modulo 2^32, and no IOMMU domain of
  -- a bound device was freed. Device pointers are below 2^64.
  pub Reach-IsConsistent :
      (s t : System) → Reach linux_6_5 frees s t → IsConsistent s → IsConsistent t
  Reach-IsConsistent s t here c = c
  Reach-IsConsistent s t (next {t = u} before last) c =
      Step-IsConsistent u t last (Reach-IsConsistent s u before c)
