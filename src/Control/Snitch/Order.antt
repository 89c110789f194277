-- ===== src/Control/Snitch/Order.antt =====
-- Calls on an Occamy quadrant one after the other, and the order of their accesses.
use hero_tools.Prelude.{
  ℕ, ◌+◌, Bool, true, false, ◌&&◌, not, Option, none, some, List, [], ◌∷◌, ◌==◌, if◌then◌else◌,
}
use hero_tools.Prelude.Partial.{◌>>=◌}
use hero_tools.Control.{Access, Hw, Bus, quad_ctrl, occ_soc_ctrl, clint, wrote, saw, fenced}
use hero_tools.Control.Snitch.{
  reset_n_offset, isolate_offset, scratch_0_offset, scratch_1_offset, hero_dev_reset,
  hero_dev_exe_start,
}

-- A quadrant as the accesses so far leave it: whether isolation is asked for in all four directions, which
-- no program checks, whether reset is asserted, whether a fence stands behind the last write, how many
-- resets have been completed, and since the last one what was written to the two scratch registers, the
-- latest first, and whether interrupts were raised.
pub record Quadrant : Type 0 where
  pub requested : Bool
  pub in_reset : Bool
  pub settled : Bool
  pub resets : ℕ
  pub scratch_0 : List ℕ
  pub scratch_1 : List ℕ
  pub woken : Bool

abbrev pub is_empty : List ℕ → Bool
is_empty [] = true
is_empty (x ∷ xs) = false

abbrev pub is_out : Quadrant → Bool
is_out q = not q.requested && not q.in_reset

-- The reset is asserted with 0, which forgets what was started, and released with another value.
abbrev pub change_reset : (value : ℕ) → Quadrant → Quadrant
change_reset value q =
    let asserted : Quadrant = record q {
      in_reset = true;
      settled = false;
      scratch_0 = [];
      scratch_1 = [];
      woken = false;
    } in
    let released : Quadrant = record q {
      in_reset = false;
      settled = false;
      resets = q.resets + (if q.in_reset then 1 else 0);
    } in
    if value == 0 then asserted else released

-- The reset changes only while isolation is asked for, behind a fence. The scratch registers are written only
-- out of reset and without isolation. Interrupts change only in reset, which clears them, or behind the
-- scratch registers and a fence, which raises them. Else the order is broken, which is `none`.
unfoldable pub watch : Access → Quadrant → Option Quadrant
watch (wrote quad_ctrl offset value) q =
    if offset == isolate_offset
    then some (record q { requested = value == 15; settled = false })
    else if offset == reset_n_offset
    then (if q.requested && q.settled then some (change_reset value q) else none)
    else some q
watch (wrote occ_soc_ctrl offset value) q =
    if offset == scratch_0_offset
    then (if is_out q
        then some (record q { scratch_0 = value ∷ q.scratch_0; settled = false })
        else none)
    else if offset == scratch_1_offset
    then (if is_out q
        then some (record q { scratch_1 = value ∷ q.scratch_1; settled = false })
        else none)
    else some q
watch (wrote clint offset value) q =
    if q.in_reset
    then some q
    else if not (is_empty q.scratch_0) && (not (is_empty q.scratch_1) && q.settled)
    then some (record q { woken = true })
    else none
watch (wrote other offset value) q = some q
watch (saw block offset value) q = some q
watch fenced q = some (record q { settled = true })

-- What a trace, the latest access first, makes of a quadrant; `none` if it breaks the order.
unfoldable pub after : Quadrant → List Access → Option Quadrant
after start [] = some start
after start (a ∷ trace) = after start trace >>= watch a

pub data Call : Type 0 where
  reset exe_start : Call

-- A quadrant that has been reset so often and is ready, and what was written and raised since.
abbrev pub ready : (resets : ℕ) (scratch_0 scratch_1 : List ℕ) (woken : Bool) → Quadrant
ready resets scratch_0 scratch_1 woken = record {
  requested = false;
  in_reset = false;
  settled = true;
  resets = resets;
  scratch_0 = scratch_0;
  scratch_1 = scratch_1;
  woken = woken;
}

-- What calls make of a ready quadrant.
abbrev pub outcomes :
    List Call → (resets : ℕ) (scratch_0 scratch_1 : List ℕ) (woken : Bool) → Quadrant
outcomes [] n a b woken = ready n a b woken
outcomes (reset ∷ calls) n a b woken = outcomes calls (n + 1) [] [] false
outcomes (exe_start ∷ calls) n a b woken = outcomes calls n (0xc0000000 ∷ a) (0 ∷ b) true

module _ {S : Type 0} (hw : Hw S) where
  abbrev pub run_call : Call → Bus S → Bus S
  run_call reset bus = hero_dev_reset hw bus
  run_call exe_start bus = hero_dev_exe_start hw bus

  unfoldable pub run_calls : List Call → Bus S → Bus S
  run_calls [] bus = bus
  run_calls (call ∷ calls) bus = run_calls calls (run_call call bus)
