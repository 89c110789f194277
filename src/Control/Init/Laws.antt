-- ===== src/Control/Init/Laws.antt =====
-- What the device is told by `hero_dev_init`.
use hero_tools.Prelude.{◌%◌, ◌^◌, ◌≡◌, refl, ap, none, some, ◌∷◌, arith, inl, inr, Option-cases}
use mathlib.Core.Path.{subst}
use hero_tools.Prelude.Int.{ℤ, pos}
use hero_tools.DevHeap.{O1Heap}
use hero_tools.DevHeap.Mboxes.{Device, hero_dev_alloc_mboxes}
use hero_tools.DevHeap.Mboxes.Alloc.{IsReady, alloc_mboxes-IsReady}
use hero_tools.Control.{Hw, Bus, ctrl_regs, wrote, writew}
use hero_tools.Control.Init.{carfield_hero_dev_init}

-- The device has three empty mailboxes, and its two registers were told the lower halves of the
-- physical addresses of the two that it polls.
pub record IsTold {S : Type 0} (o : O1Heap) (bus : Bus S) (out : ℤ × Device o × Bus S)
    : Type 0 where
  pub mailboxes : IsReady o (out.0, out.1)
  pub told :
      out.2.trace
      ≡ wrote ctrl_regs 0x4 (out.1.mboxes.a2h.p_addr % 2 ^ 32)
        ∷ wrote ctrl_regs 0x0 (out.1.mboxes.h2a.p_addr % 2 ^ 32)
        ∷ bus.trace

-- `hero_dev_init` of Carfield, if it does not fault, returns 0, leaves three empty mailboxes of 16
-- elements of four bytes, and makes two accesses: it writes the lower 32 bits of the physical
-- addresses of `h2a_mbox` and then of `a2h_mbox` to the control registers at 0 and 4.
carfield_init-IsTold :
    {S : Type 0} (hw : Hw S) (o : O1Heap) (dev : Device o) (bus : Bus S) (r : ℤ) (dev' : Device o)
    (bus' : Bus S)
    → carfield_hero_dev_init hw o dev bus ≡ some (r, dev', bus')
    → IsTold o bus (r, dev', bus')
unfolding carfield_hero_dev_init writew
carfield_init-IsTold {S} hw o dev bus r dev' bus' e =
    elim (Option-cases (hero_dev_alloc_mboxes o dev)) [
      | inl none_there ↦ absurd (ground arith)
      | inr ((ignored, dev1), there) ↦
          let ready = alloc_mboxes-IsReady o dev dev1 ignored there in
          let bus1 = writew hw (dev1.mboxes.h2a.p_addr % 2 ^ 32) ctrl_regs 0x0 bus in
          let out : ℤ × Device o × Bus S =
            (pos 0, dev1, writew hw (dev1.mboxes.a2h.p_addr % 2 ^ 32) ctrl_regs 0x4 bus1) in
          let same : some out ≡ some (r, dev', bus') = rw there at e in
          subst (IsTold o bus) (ap (λ x. elim x [ none ↦ out | some y ↦ y ]) same) (record {
            mailboxes = record { status = refl; a2h = ready.a2h; h2a = ready.h2a; rb = ready.rb };
            told = refl;
          })
    ]
