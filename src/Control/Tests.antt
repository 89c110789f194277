-- ===== src/Control/Tests.antt =====
-- Calls on clusters whose isolation register answers at once.
use hero_tools.Prelude.{ℕ, ◌≡◌, refl, true, false, arith, some, List, [], ◌∷◌, ◌==◌, if◌then◌else◌}
use hero_tools.Control.{Hw, Bus}
use hero_tools.Control.Order.{Cluster, running, started_cluster, after, Grants, nth_read, ResetRegs}
use hero_tools.Control.Spatz.Laws as SpatzLaws
use hero_tools.Control.Spatz.Laws.{spatz_calls-in_order}
use hero_tools.Control.SafetyIsland.Laws as IslandLaws
use hero_tools.Control.Snitch.Order as QuadrantOrder
use hero_tools.Control.Snitch.Order.{Quadrant}

-- The state is what was last written to the isolation register, and every register reads as that.
abbrev hw_of : ResetRegs → Hw ℕ
hw_of r = record {
  on_write = λ block offset value s. if offset == r.isolate_offset then value else s;
  on_read = λ block offset s. (s, s);
}

-- No access yet.
abbrev bus : Bus ℕ
bus = record { device = 0; trace = [] }

-- A cluster that is held in reset, without a clock.
abbrev powered : Cluster
powered = record (running 0 []) { clocked = false; in_reset = true }

bus-after : (r : ResetRegs) → after r powered [] ≡ some powered
unfolding after
bus-after r = refl

spatz-Grants : Grants SpatzLaws.regs (hw_of SpatzLaws.regs) 1
unfolding nth_read
spatz-Grants status small s = (0, omega arith, refl)

abbrev spatz_calls : List SpatzLaws.Call
spatz_calls = SpatzLaws.reset ∷ SpatzLaws.exe_start ∷ SpatzLaws.munmap ∷ SpatzLaws.exe_start ∷ []

spatz_calls-in_order_example :
    (bus' : Bus ℕ) × (SpatzLaws.run_calls (hw_of SpatzLaws.regs) 1 spatz_calls bus ≡ some bus')
    × (after SpatzLaws.regs powered bus'.trace
        ≡ some (started_cluster 4 (0x78000000 ∷ []) (1 ∷ 0 ∷ 1 ∷ 0 ∷ []) (1 ∷ 0 ∷ [])))
spatz_calls-in_order_example =
    spatz_calls-in_order (hw_of SpatzLaws.regs) 1 powered spatz_calls bus powered spatz-Grants
      (bus-after SpatzLaws.regs)

abbrev island_calls : List IslandLaws.Call
island_calls = IslandLaws.exe_start ∷ IslandLaws.reset ∷ IslandLaws.exe_start ∷ []

-- A quadrant in reset.
abbrev held : Quadrant
held = record (QuadrantOrder.ready 0 [] [] false) { in_reset = true }

abbrev snitch_calls : List QuadrantOrder.Call
snitch_calls = QuadrantOrder.exe_start ∷ QuadrantOrder.reset ∷ QuadrantOrder.exe_start ∷ []
