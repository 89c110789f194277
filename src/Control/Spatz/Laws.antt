-- ===== src/Control/Spatz/Laws.antt =====
-- Calls on the Spatz cluster one after the other, and the order of their accesses.
use hero_tools.Prelude.{ℕ, ◌+◌, ◌≡◌, refl, true, Option, some, List, [], ◌∷◌, ◌==◌, if◌then◌else◌}
use hero_tools.Prelude.Partial.{◌>>=◌}
use hero_tools.Control.{Block, soc_ctrl, mboxes, spatz_cluster, Hw, Bus, writew, fence}
use hero_tools.Control.Order.{
  Role, isolate, isolate_status, clk_en, rst, boot_addr, plain, enable, send, ResetRegs, Cluster,
  running, started_cluster, without, after, watch, Grants, around,
}
use hero_tools.Control.Spatz.Mbox
use hero_tools.Control.Spatz.{
  rst_offset, isolate_offset, isolate_status_offset, clk_en_offset, boot_control_offset,
  car_set_isolate, disable_irqs, reset_and_clock, hero_dev_reset, reset_spatz, start_spatz,
  hero_dev_exe_start, hero_dev_munmap,
}

abbrev pub role : Block → (offset : ℕ) → Role
role soc_ctrl offset =
    if offset == isolate_offset
    then isolate
    else if offset == isolate_status_offset
    then isolate_status
    else if offset == clk_en_offset
    then clk_en
    else if offset == rst_offset
    then rst
    else plain
role mboxes offset =
    if offset == Mbox.snd_en_0
    then enable 0
    else if offset == Mbox.snd_en_1
    then enable 1
    else if offset == Mbox.snd_set_0
    then send 0
    else if offset == Mbox.snd_set_1
    then send 1
    else plain
role spatz_cluster offset = if offset == boot_control_offset then boot_addr else plain
role _ offset = plain

abbrev pub regs : ResetRegs
regs = record {
  role = role;
  isolate_offset = isolate_offset;
  status_offset = isolate_status_offset;
  is_isolate = refl;
  is_status = refl;
}

pub data Call : Type 0 where
  reset exe_start munmap : Call

-- What a call makes of a cluster.
abbrev pub outcome : Call → Cluster → Cluster
outcome reset c = running (c.resets + 1) (without 1 (without 0 c.enabled))
outcome exe_start c =
    started_cluster (c.resets + 1) (0x78000000 ∷ []) (1 ∷ 0 ∷ c.enabled) (1 ∷ 0 ∷ [])
outcome munmap c = running (c.resets + 1) c.enabled

abbrev pub outcomes : List Call → Cluster → Cluster
outcomes [] c = c
outcomes (call ∷ calls) c = outcomes calls (outcome call c)

module _ {S : Type 0} (hw : Hw S) (fuel : ℕ) where
  abbrev pub run_call : Call → Bus S → Option (Bus S)
  run_call reset bus = hero_dev_reset hw fuel bus
  run_call exe_start bus = hero_dev_exe_start hw fuel bus
  run_call munmap bus = hero_dev_munmap hw fuel bus

  unfoldable pub run_calls : List Call → Bus S → Option (Bus S)
  run_calls [] bus = some bus
  run_calls (call ∷ calls) bus = run_call call bus >>= λ bus'. run_calls calls bus'

module _ {S : Type 0} (hw : Hw S) (fuel : ℕ) (start : Cluster) where
  -- The cluster between the requests, when it has been reset.
  abbrev cycled : Cluster → List ℕ → Cluster
  cycled c lines = record (running (c.resets + 1) lines) { requested = true; isolated = true }

  reset_spatz-after :
      (bus : Bus S) (c : Cluster)
      → Grants regs hw fuel
      → after regs start bus.trace ≡ some c
      → (bus' : Bus S) × (reset_spatz hw fuel bus ≡ some bus')
        × (after regs start bus'.trace ≡ some (running (c.resets + 1) c.enabled))
  unfolding reset_spatz car_set_isolate reset_and_clock writew fence after watch
  reset_spatz-after bus c grants good =
      around hw regs start fuel
        (λ bus. reset_and_clock hw (fence hw (writew hw 0 soc_ctrl clk_en_offset bus))) bus c
        (cycled c c.enabled) grants good (λ bus1 good1. rw good1 refl)

  -- Each call returns, and does to the cluster what it should.
  call-after :
      (call : Call) (bus : Bus S) (c : Cluster)
      → Grants regs hw fuel
      → after regs start bus.trace ≡ some c
      → (bus' : Bus S) × (run_call hw fuel call bus ≡ some bus')
        × (after regs start bus'.trace ≡ some (outcome call c))
  unfolding hero_dev_reset hero_dev_exe_start hero_dev_munmap car_set_isolate disable_irqs
      reset_and_clock start_spatz writew fence after watch
  call-after reset bus c grants good =
      around hw regs start fuel
        (λ bus.
          reset_and_clock hw
            (disable_irqs hw (fence hw (writew hw 0 soc_ctrl clk_en_offset (fence hw bus)))))
        bus c (cycled c (without 1 (without 0 c.enabled))) grants good (λ bus1 good1. rw good1 refl)
  call-after exe_start bus c grants good =
      let (bus1, e1, good1) = reset_spatz-after bus c grants good in
      (start_spatz hw bus1, rw e1 refl, rw good1 refl)
  call-after munmap bus c grants good = reset_spatz-after bus c grants good

  -- Any calls of `hero_dev_reset`, `hero_dev_exe_start` and `hero_dev_munmap` of the Spatz
  -- cluster, one after the other, return if the hardware grants each isolation request within the
  -- reads allowed, and keep the order of accesses: the clock changes only while the cluster was
  -- seen isolated, the reset only while also the clock is off, the boot address is written and
  -- the interrupts are raised only while the cluster runs, an interrupt only on an enabled line
  -- and behind a boot address, and a fence stands before each change of the clock or the reset
  -- and each interrupt. Each call asserts and releases the reset once, `hero_dev_reset` disables
  -- both lines, and the last call leaves the cluster running, after `hero_dev_exe_start` with the
  -- boot address 0x78000000 and an interrupt raised on both lines. The accesses before have kept
  -- the order.
  pub spatz_calls-in_order :
      (calls : List Call) (bus : Bus S) (c : Cluster)
      → Grants regs hw fuel
      → after regs start bus.trace ≡ some c
      → (bus' : Bus S) × (run_calls hw fuel calls bus ≡ some bus')
        × (after regs start bus'.trace ≡ some (outcomes calls c))
  unfolding run_calls
  spatz_calls-in_order [] bus c grants good = (bus, refl, good)
  spatz_calls-in_order (call ∷ calls) bus c grants good =
      let (bus1, e1, good1) = call-after call bus c grants good in
      let (bus2, e2, good2) = spatz_calls-in_order calls bus1 (outcome call c) grants good1 in
      (bus2, rw e1 e2, good2)
