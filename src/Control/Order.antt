-- ===== src/Control/Order.antt =====
-- The order of accesses that a cluster's reset needs, and the polling loop that waits for isolation.
use hero_tools.Prelude.{
  ℕ, zero, suc, ◌+◌, ◌<◌, ◌≡◌, refl, ◌∙◌, ap, Bool, true, false, ◌&&◌, not, Option, none, some,
  List, [], ◌∷◌, arith, ◌==◌, if◌then◌else◌, Bool-cases, inl, inr,
}
use hero_tools.Prelude.Partial.{◌>>=◌}
use hero_tools.Control.{
  Block, Access, Hw, Bus, soc_ctrl, wrote, saw, fenced, writew, readw, fence, poll, set_isolate,
}

-- What a register of the SoC is to one cluster. `enable k` lets the interrupt of line `k` pass,
-- `send k` raises it, and `fetch` lets the core run.
pub data Role : Type 0 where
  isolate isolate_status clk_en rst boot_addr fetch plain : Role
  enable : (line : ℕ) → Role
  send : (line : ℕ) → Role

-- The registers of one cluster.
pub record ResetRegs : Type 0 where
  pub role : Block → (offset : ℕ) → Role
  pub isolate_offset : ℕ
  pub status_offset : ℕ
  pub is_isolate : role soc_ctrl isolate_offset ≡ isolate
  pub is_status : role soc_ctrl status_offset ≡ isolate_status

-- A cluster as the accesses so far leave it: whether isolation is asked for, whether it was seen since,
-- whether the clock runs, whether reset is asserted, whether a fence stands behind the last write that
-- matters, how many resets have been completed, the lines enabled, and since the last reset the boot
-- addresses written and the lines by which cores were started, each the latest first.
pub record Cluster : Type 0 where
  pub requested : Bool
  pub isolated : Bool
  pub clocked : Bool
  pub in_reset : Bool
  pub settled : Bool
  pub resets : ℕ
  pub boots : List ℕ
  pub enabled : List ℕ
  pub started : List ℕ

abbrev pub has : ℕ → List ℕ → Bool
has k [] = false
has k (x ∷ xs) = if x == k then true else has k xs

abbrev pub without : ℕ → List ℕ → List ℕ
without k [] = []
without k (x ∷ xs) = if x == k then without k xs else x ∷ without k xs

abbrev pub is_empty : List ℕ → Bool
is_empty [] = true
is_empty (x ∷ xs) = false

-- No isolation, clock on and reset off.
abbrev pub is_running : Cluster → Bool
is_running c = not c.requested && (c.clocked && not c.in_reset)

-- A cluster that is to start runs, and has a boot address that a fence stands behind.
abbrev pub can_start : Cluster → Bool
can_start c = is_running c && (not (is_empty c.boots) && c.settled)

-- The reset is asserted with 1, which forgets what was started, and released with another value, which
-- completes a reset if it was asserted.
abbrev pub change_reset : (value : ℕ) → Cluster → Cluster
change_reset value c =
    let asserted : Cluster = record c {
      in_reset = true;
      settled = false;
      boots = [];
      started = [];
    } in
    let released : Cluster = record c {
      in_reset = false;
      settled = false;
      resets = c.resets + (if c.in_reset then 1 else 0);
    } in
    if value == 1 then asserted else released

-- A write: the clock needs a cluster seen isolated, the reset that and a stopped clock, the boot address a
-- running cluster, and a start what `can_start` says, and by an interrupt an enabled line; the clock, the
-- reset and a start stand behind a fence. Else the accesses break the order, which is `none`.
abbrev pub watch_write : Role → (value : ℕ) → Cluster → Option Cluster
watch_write isolate value c =
    some (record c { requested = value == 1; isolated = false; settled = false })
watch_write clk_en value c =
    if c.isolated && c.settled
    then some (record c { clocked = not (value == 0); settled = false })
    else none
watch_write rst value c =
    if c.isolated && (not c.clocked && c.settled) then some (change_reset value c) else none
watch_write boot_addr value c =
    if is_running c then some (record c { boots = value ∷ c.boots; settled = false }) else none
watch_write (enable k) value c =
    some (record c { enabled = if value == 1 then k ∷ c.enabled else without k c.enabled })
watch_write (send k) value c =
    if value == 0
    then some c
    else if can_start c && has k c.enabled
    then some (record c { started = k ∷ c.started })
    else none
watch_write fetch value c =
    if value == 0
    then some (record c { started = [] })
    else if can_start c
    then some (record c { started = 0 ∷ c.started })
    else none
watch_write _ value c = some c

abbrev pub watch_read : Role → (value : ℕ) → Cluster → Cluster
watch_read isolate_status value c = record c { isolated = c.requested && (value == 1) }
watch_read _ value c = c

unfoldable pub watch : ResetRegs → Access → Cluster → Option Cluster
watch r (wrote block offset value) c = watch_write (r.role block offset) value c
watch r (saw block offset value) c = some (watch_read (r.role block offset) value c)
watch r fenced c = some (record c { settled = true })

-- What a trace, the latest access first, makes of a cluster; `none` if it breaks the order.
unfoldable pub after : ResetRegs → Cluster → List Access → Option Cluster
after r start [] = some start
after r start (a ∷ trace) = after r start trace >>= watch r a

-- A cluster that runs behind so many resets, with nothing started, and one that was then started.
abbrev pub started_cluster : (resets : ℕ) (boots enabled started : List ℕ) → Cluster
started_cluster resets boots enabled started = record {
  requested = false;
  isolated = false;
  clocked = true;
  in_reset = false;
  settled = true;
  resets = resets;
  boots = boots;
  enabled = enabled;
  started = started;
}

abbrev pub running : (resets : ℕ) (enabled : List ℕ) → Cluster
running resets enabled = started_cluster resets [] enabled []

-- The value of a register at the n-th read in a row.
unfoldable pub nth_read : {S : Type 0} → Hw S → Block → (offset : ℕ) → ℕ → S → ℕ
nth_read hw block offset zero s = (hw.on_read block offset s).0
nth_read hw block offset (suc n) s = nth_read hw block offset n (hw.on_read block offset s).1

-- The hardware grants each request to isolate or to stop isolating within so many reads of the status.
abbrev pub Grants : {S : Type 0} → ResetRegs → Hw S → (reads : ℕ) → Type 0
Grants {S} r hw reads =
    (status : ℕ)
    → status < 2
    → (s : S)
    → (n : ℕ) × (n < reads)
      × (nth_read hw soc_ctrl r.status_offset n (hw.on_write soc_ctrl r.isolate_offset status s)
          ≡ status)

later :
    {S : Type 0} (hw : Hw S) (r : ResetRegs) (fuel n status : ℕ) (s : S)
    → n < suc fuel
    → nth_read hw soc_ctrl r.status_offset n s ≡ status
    → ((hw.on_read soc_ctrl r.status_offset s).0 == status) ≡ false
    → (n' : ℕ) × (n' < fuel)
      × (nth_read hw soc_ctrl r.status_offset n' (hw.on_read soc_ctrl r.status_offset s).1 ≡ status)
unfolding nth_read
later hw r fuel zero status s small shown not_shown = absurd (ground arith)
later hw r fuel (suc n) status s small shown not_shown = (n, omega arith, shown)

module _ {S : Type 0} (hw : Hw S) (r : ResetRegs) (start : Cluster) where
  -- The loop ends once the register shows the status, and then the cluster is seen isolated if that
  -- was asked for and the status is 1.
  poll-after :
      (fuel n status : ℕ) (bus : Bus S) (c : Cluster)
      → after r start bus.trace ≡ some c
      → n < fuel
      → nth_read hw soc_ctrl r.status_offset n bus.device ≡ status
      → (bus' : Bus S) × (poll hw fuel soc_ctrl r.status_offset status bus ≡ some bus')
        × (after r start bus'.trace ≡ some (record c { isolated = c.requested && (status == 1) }))
  unfolding poll readw after watch nth_read
  poll-after zero n status bus c good small shown = absurd (omega arith)
  poll-after (suc fuel) n status bus c good small shown =
      let (value, bus1) = readw hw soc_ctrl r.status_offset bus in
      let c1 : Cluster = record c { isolated = c.requested && (value == 1) } in
      let seen : after r start bus1.trace ≡ some c1 = rw good (rw r.is_status refl) in
      elim (Bool-cases (value == status)) [
        | inl is_shown ↦ (
          bus1,
          rw is_shown refl,
          seen ∙ ap (λ v. some (record c { isolated = c.requested && (v == 1) })) (ground arith),
        )
        | inr not_shown ↦
            let (n', small', shown') = later hw r fuel n status bus.device small shown not_shown in
            let (bus', e, good') = poll-after fuel n' status bus1 c1 seen small' shown' in
            (bus', rw not_shown e, good')
      ]

  -- A request is granted, and the cluster is then seen isolated just if that was the request.
  pub set_isolate-after :
      (fuel status : ℕ) (bus : Bus S) (c : Cluster)
      → Grants r hw fuel
      → status < 2
      → after r start bus.trace ≡ some c
      → (bus' : Bus S) × (set_isolate hw r.isolate_offset r.status_offset fuel status bus
          ≡ some bus')
        × (after r start bus'.trace
            ≡ some (record c { requested = status == 1; isolated = status == 1; settled = true }))
  unfolding set_isolate writew fence after watch
  set_isolate-after fuel status bus c grants small good =
      let (n, in_time, granted) = grants status small bus.device in
      let bus1 = fence hw (writew hw status soc_ctrl r.isolate_offset bus) in
      let c1 : Cluster = record c { requested = status == 1; isolated = false; settled = true } in
      let asked : after r start bus1.trace ≡ some c1 = rw good (rw r.is_isolate refl) in
      let (bus', e, good') = poll-after fuel n status bus1 c1 asked in_time granted in
      (bus', e, good' ∙ ap (λ b. some (record c1 { isolated = b })) (ground arith))

  -- The two requests of a reset, with accesses between that keep the order.
  pub around :
      (fuel : ℕ) (middle : Bus S → Bus S) (bus : Bus S) (c c1 : Cluster)
      → Grants r hw fuel
      → after r start bus.trace ≡ some c
      → ((bus1 : Bus S)
          → after r start bus1.trace
            ≡ some (record c { requested = true; isolated = true; settled = true })
          → after r start (middle bus1).trace ≡ some c1)
      → (bus' : Bus S) × ((set_isolate hw r.isolate_offset r.status_offset fuel 1 bus >>= λ bus1.
            set_isolate hw r.isolate_offset r.status_offset fuel 0 (middle bus1))
          ≡ some bus')
        × (after r start bus'.trace
            ≡ some (record c1 { requested = false; isolated = false; settled = true }))
  around fuel middle bus c c1 grants good keeps =
      let (bus1, e1, good1) = set_isolate-after fuel 1 bus c grants (omega arith) good in
      let (bus2, e2, good2) =
        set_isolate-after fuel 0 (middle bus1) c1 grants (omega arith) (keeps bus1 good1) in
      (bus2, rw e1 e2, good2)
