-- ===== src/Carfield/Probe/Laws.antt =====
-- What a probe of the Carfield driver and the removal after it leave with Linux.
use hero_tools.Prelude.{
  ℕ, zero, suc, ◌+◌, ◌%◌, ◌^◌, ◌<◌, ◌≡◌, ◌≢◌, inl, inr, sym, ◌∙◌, ap, Bool, true, false, ◌&&◌, not,
  Option, none, some, List, [], ◌∷◌, ◌++◌, arith, ◌==◌, if◌then◌else◌, Option-cases, Bool-cases,
}
use hero_tools.Prelude.Int.{ℤ, pos, is_nonzero}
use hero_tools.Prelude.Bits.{add32, add64}
use hero_tools.Prelude.Partial.{bind-some}
use hero_tools.Driver.Probe.{Probing}
use hero_tools.Driver.Devices.Laws.{publish-refused, publish-accepted}
use hero_tools.Carfield.Probe.{
  Bus, Held, Bound, gpio_n_irqs, n_isolate, store, request_irqs, deisolate, wake, attach, finish,
  probe_early, probe_late, card_platform_driver_probe,
}
use hero_tools.Carfield.Probe.Fields.{Field}

-- The hardware part of a probe changes neither the devices nor the domains.
abbrev Keeps : Held → Held → Type 0
Keeps h h1 = (h1.devices ≡ h.devices) × (h1.domains ≡ h.domains)

Keeps-trans : (h h1 h2 : Held) → Keeps h h1 → Keeps h1 h2 → Keeps h h2
Keeps-trans h h1 h2 (a, b) (c, d) = (c ∙ a, d ∙ b)

store-Keeps : (b : Bus) (addr word : ℕ) (h h1 : Held) → store b addr word h ≡ some h1 → Keeps h h1
unfolding store
store-Keeps b addr word h h1 e = ground arith

request_irqs-Keeps :
    (b : Bus) (id n i : ℕ) (h h1 : Held) → request_irqs b id n i h ≡ some h1 → Keeps h h1
unfolding request_irqs
request_irqs-Keeps b id zero i h h1 e = ground arith
request_irqs-Keeps b id (suc n) i h h1 e =
    let h2 : Held =
      if is_nonzero (b.request_irq (b.of_irq_get i))
      then h
      else record h { handlers = h.handlers ++ ((b.of_irq_get i, id) ∷ []) } in
    elim (Bool-cases (b.has_desc (b.of_irq_get i))) [
      | inl there ↦
          Keeps-trans h h2 h1 (ground arith)
            (request_irqs-Keeps b id n (i + 1) h2 h1 (ground arith))
      | inr missing ↦ absurd (ground arith)
    ]

deisolate-Keeps : (b : Bus) (n addr : ℕ) (h h1 : Held) → deisolate b n addr h ≡ some h1 → Keeps h h1
unfolding deisolate
deisolate-Keeps b zero addr h h1 e = ground arith
deisolate-Keeps b (suc n) addr h h1 e =
    let (h2, stored, rest) =
      bind-some (store b addr 0 h) (λ h2. deisolate b n (add64 addr 4) h2) h1 e in
    Keeps-trans h h2 h1 (store-Keeps b addr 0 h h2 stored)
      (deisolate-Keeps b n (add64 addr 4) h2 h1 rest)

wake-Keeps :
    (b : Bus) (id : ℕ) (p : Probing Field) (h h1 : Held) → wake b id p h ≡ some h1 → Keeps h h1
unfolding wake
wake-Keeps b id p h h4 e =
    let (h1, requested, e1) = bind-some (request_irqs b id gpio_n_irqs 0 h) _ h4 e in
    let (h2, first, e2) = bind-some (store b _ 0xffffffff h1) _ h4 e1 in
    let (h3, second, last) = bind-some (store b _ 0xffffffff h2) _ h4 e2 in
    Keeps-trans h h1 h4 (request_irqs-Keeps b id gpio_n_irqs 0 h h1 requested) (
      Keeps-trans h1 h2 h4 (store-Keeps b _ 0xffffffff h1 h2 first) (
        Keeps-trans h2 h3 h4 (store-Keeps b _ 0xffffffff h2 h3 second)
          (deisolate-Keeps b n_isolate _ h3 h4 last)))

-- Whether a probe has an IOMMU domain when it adds the character device.
abbrev pub keeps_domain : Bool → Bus → Bool
keeps_domain linux_6_5 b =
    linux_6_5
    && (b.iommu_present
        && (not (b.iommu_domain_alloc == 0) && not (is_nonzero b.iommu_attach_device)))

-- The domains with it.
abbrev pub domains_after : Bool → Bus → Held → List ℕ
domains_after linux_6_5 b h =
    if keeps_domain linux_6_5 b then b.iommu_domain_alloc ∷ h.domains else h.domains

module _ (linux_6_5 : Bool) (b : Bus) (num : ℕ) (p : Probing Field) (h : Held) where
  attach-domains : (attach linux_6_5 b h).2.domains ≡ domains_after linux_6_5 b h
  unfolding attach
  attach-domains = ground arith

  attach-devices : (attach linux_6_5 b h).2.devices ≡ h.devices
  unfolding attach
  attach-devices = ground arith

  finish-refused :
      let (ret, d, h') = finish linux_6_5 b num p h in
      ret ≢ pos 0
      → (h'.devices.cdevs ≡ h.devices.cdevs)
        × (h'.devices.files ≡ h.devices.files)
        × (h'.devices.total_devices ≡ h.devices.total_devices)
        × (h'.domains ≡ domains_after linux_6_5 b h)
  unfolding finish
  finish-refused failed =
      let (ret, domain, h1) = attach linux_6_5 b h in
      elim (Bool-cases (is_nonzero ret)) [
        | inl stopped ↦ ground (arith, attach-domains, attach-devices)
        | inr attached ↦
            let refused = publish-refused b.char_dev num h1.devices in
            ground (arith, attach-domains, attach-devices, refused)
      ]

  finish-accepted :
      let (ret, d, h') = finish linux_6_5 b num p h in
      b.char_dev.device_create < 2 ^ 64
      → ret ≡ pos 0
      → (h'.devices.cdevs ≡ num ∷ h.devices.cdevs)
        × (h'.devices.files ≡ num ∷ h.devices.files)
        × (h'.devices.total_devices ≡ (h.devices.total_devices + 1) % 2 ^ 32)
        × (h'.domains ≡ domains_after linux_6_5 b h)
        × (d.dev_num ≡ num)
        × (d.iommu_domain ≡ (if keeps_domain linux_6_5 b then b.iommu_domain_alloc else 0))
        × ((linux_6_5 && b.iommu_present) ≡ keeps_domain linux_6_5 b)
  unfolding finish attach
  finish-accepted is64 accepted =
      let (ret, domain, h1) = attach linux_6_5 b h in
      elim (Bool-cases (is_nonzero ret)) [
        | inl stopped ↦ absurd (ground arith)
        | inr attached ↦
            let kept = publish-accepted b.char_dev num h1.devices is64 (ground arith) in
            (
              ground (arith, kept, attach-devices),
              ground (arith, kept, attach-devices),
              ground (arith, kept, attach-devices),
              ground (arith, attach-domains),
              ground arith,
              ground arith,
              ground arith,
            )
      ]

module _ (linux_6_5 : Bool) (b : Bus) (id : ℕ) (h : Held) (ret : ℤ) where
  -- A probe that had its memory ends with `finish`, on what the hardware part left.
  probe-finish :
      (d : Bound) (h' : Held)
      → card_platform_driver_probe linux_6_5 b id h ≡ some (ret, some d, h')
      → (h1 : Held) × Keeps h h1
        × ((ret, d, h')
            ≡ finish linux_6_5 b (add32 h1.devices.device_num_base id) (probe_late b) h1)
        × ((b.kzalloc_data && b.kzalloc_buffer) ≡ true)
  unfolding card_platform_driver_probe
  probe-finish d h' e = elim (Option-cases (wake b id (probe_early b) h)) [
    | inl stuck ↦ absurd (ground arith)
    | inr (h1, woken) ↦ (h1, wake-Keeps b id (probe_early b) h h1 woken, ground arith, ground arith)
  ]

  probe-no_memory :
      (h' : Held)
      → card_platform_driver_probe linux_6_5 b id h ≡ some (ret, none, h')
      → (h' ≡ h) × ((b.kzalloc_data && b.kzalloc_buffer) ≡ false)
  unfolding card_platform_driver_probe
  probe-no_memory h' e = elim (Option-cases (wake b id (probe_early b) h)) [
    | inl stuck ↦ (ground arith, ground arith)
    | inr (h1, woken) ↦ (ground arith, ground arith)
  ]

  -- A probe of the Carfield driver that returns a result other than 0 leaves the cdevs, the
  -- device files and the count of devices as they were, and the IOMMU domains too, unless the
  -- domain was allocated and attached: then it stays.
  pub probe_refused :
      (d : Option Bound) (h' : Held)
      → card_platform_driver_probe linux_6_5 b id h ≡ some (ret, d, h')
      → ret ≢ pos 0
      → (h'.devices.cdevs ≡ h.devices.cdevs)
        × (h'.devices.files ≡ h.devices.files)
        × (h'.devices.total_devices ≡ h.devices.total_devices)
        × (h'.domains ≡ (
            if b.kzalloc_data && b.kzalloc_buffer then domains_after linux_6_5 b h else h.domains))
  probe_refused none h' e failed = ground (arith, probe-no_memory h' e)
  probe_refused (some d) h' e failed =
      let (h1, keeps, ends, memory) = probe-finish d h' e in
      let num = add32 h1.devices.device_num_base id in
      ground (
        arith,
        keeps,
        memory,
        ends,
        finish-refused linux_6_5 b num (probe_late b) h1 (ground arith),
      )

module _ (linux_6_5 : Bool) (b : Bus) (id : ℕ) (h : Held) (d : Bound) (h' : Held)
    (is64 : b.char_dev.device_create < 2 ^ 64)
    (probed : card_platform_driver_probe linux_6_5 b id h ≡ some (pos 0, some d, h')) where
  -- What a successful probe adds.
  pub probe_accepted :
      (h'.devices.cdevs ≡ d.dev_num ∷ h.devices.cdevs)
      × (h'.devices.files ≡ d.dev_num ∷ h.devices.files)
      × (h'.devices.total_devices ≡ (h.devices.total_devices + 1) % 2 ^ 32)
      × (h'.domains ≡ domains_after linux_6_5 b h)
      × (d.iommu_domain ≡ (if keeps_domain linux_6_5 b then b.iommu_domain_alloc else 0))
      × ((linux_6_5 && b.iommu_present) ≡ keeps_domain linux_6_5 b)
  probe_accepted =
      let (h1, keeps, ends, _) = probe-finish linux_6_5 b id h (pos 0) d h' probed in
      let num = add32 h1.devices.device_num_base id in
      let accepted =
        finish-accepted linux_6_5 b num (probe_late b) h1 is64 (sym (ap (λ r. r.0) ends)) in
      (
        ground (arith, keeps, ends, accepted),
        ground (arith, keeps, ends, accepted),
        ground (arith, keeps, ends, accepted),
        ground (arith, keeps, ends, accepted),
        ground (arith, keeps, ends, accepted),
        ground (arith, accepted),
      )
