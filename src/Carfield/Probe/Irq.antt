-- ===== src/Carfield/Probe/Irq.antt =====
-- sw/hero-driver/carfield/carfield_driver.c, `carfield_handle_irq`: a handler that shares its interrupts
-- with other drivers passes on every first call, and clears the GPIO's bit at every second.
use hero_tools.Prelude.{
  ℕ, ◌+◌, ◌-◌, ◌*◌, ◌%◌, ◌^◌, ◌<◌, ◌≡◌, refl, sym, ◌∙◌, ap, inl, inr, Bool, true, false, Option,
  none, some, List, [], ◌∷◌, ◌++◌, arith, ltb, leb, ◌==◌, if◌then◌else◌, Bool-cases,
}
use mathlib.Core.List.{append-nil, append_assoc}
use native.Mathlib.Nat.{pow-le-pow_right}
use hero_tools.Prelude.Partial.{◌>>=◌}
use hero_tools.Driver.Devices.Laws.{count}

pub data IrqReturn : Type 0 where
  irq_none irq_handled : IrqReturn

-- The array `already_entered`, and the words written to the GPIO's first register.
pub record Handling : Type 0 where
  pub already_entered : ℕ → Bool
  pub cleared : List ℕ

abbrev pub n_entered : ℕ
n_entered = 64

abbrev pub gpio_first_irq : ℕ
gpio_first_irq = 19

abbrev pub enter : ℕ → Bool → Handling → Handling
enter irq b h = record h { already_entered = λ j. if irq == j then b else h.already_entered j }

-- `BIT(n)` as a 32-bit word.
abbrev pub bit : ℕ → ℕ
bit n = 2 ^ n % 2 ^ 32

-- `desc` gives the hardware's number of an interrupt that has a descriptor. `none` is an access beyond
-- the array, a missing descriptor, which is only printed, or a shift by a negative or too large number.
unfoldable pub carfield_handle_irq :
    (desc : ℕ → Option ℕ) → (irq : ℕ) → Handling → Option (IrqReturn × Handling)
carfield_handle_irq desc irq h =
    let handle = desc irq >>= λ hwirq.
    let n = hwirq - gpio_first_irq in
    let h1 : Handling = record h { cleared = h.cleared ++ (bit n ∷ []) } in
    if ltb hwirq gpio_first_irq
    then none
    else (if leb 64 n then none else some (irq_handled, enter irq false h1)) in
    if leb n_entered irq
    then none
    else (if h.already_entered irq then handle else some (irq_none, enter irq true h))

-- The calls of some interrupts, one after the other, with the answers.
unfoldable pub handle_irqs :
    (desc : ℕ → Option ℕ) → List ℕ → Handling → Option (List (ℕ × IrqReturn) × Handling)
handle_irqs desc [] h = some ([], h)
handle_irqs desc (irq ∷ irqs) h = carfield_handle_irq desc irq h >>= λ (r, h1).
    handle_irqs desc irqs h1 >>= λ (rs, h2). some ((irq, r) ∷ rs, h2)

-- Interrupts of the GPIO's 32 lines.
abbrev pub AreWired : (desc : ℕ → Option ℕ) → (line : ℕ → ℕ) → List ℕ → Type 0
AreWired desc line [] = Unit
AreWired desc line (irq ∷ irqs) =
    (irq < n_entered)
    × (desc irq ≡ some (gpio_first_irq + line irq))
    × (line irq < 32)
    × AreWired desc line irqs

-- How often an interrupt was handled.
abbrev pub handled : ℕ → List (ℕ × IrqReturn) → ℕ
handled i [] = 0
handled i ((j, irq_none) ∷ rs) = handled i rs
handled i ((j, irq_handled) ∷ rs) = (if i == j then 1 else 0) + handled i rs

-- The bits of the interrupts handled, in order.
abbrev pub bits : (line : ℕ → ℕ) → List (ℕ × IrqReturn) → List ℕ
bits line [] = []
bits line ((j, irq_none) ∷ rs) = bits line rs
bits line ((j, irq_handled) ∷ rs) = (2 ^ line j) ∷ bits line rs

abbrev pub half : Bool → ℕ
half b = if b then 1 else 0

bit-small : (n : ℕ) → n < 32 → bit n ≡ 2 ^ n
bit-small n small =
    omega (arith, pow-le-pow_right {n = 2} (omega arith) {i = n} {j = 31} (omega arith))

-- However the calls of `carfield_handle_irq` for several interrupts follow one another, all return,
-- every second call for an interrupt handles it, and exactly the bits of those handled are written
-- to the GPIO, in order. The interrupts are below 64, and their descriptors lead to one of the
-- GPIO's 32 lines.
pub handle_irqs-every_second :
    (desc : ℕ → Option ℕ) (line : ℕ → ℕ) (irqs : List ℕ) (h : Handling)
    → AreWired desc line irqs
    → (rs : List (ℕ × IrqReturn)) × (h' : Handling) × (handle_irqs desc irqs h ≡ some (rs, h'))
      × ((i : ℕ)
          → 2 * handled i rs + half (h'.already_entered i)
            ≡ count i irqs + half (h.already_entered i))
      × (h'.cleared ≡ h.cleared ++ bits line rs)
unfolding handle_irqs carfield_handle_irq
handle_irqs-every_second desc line [] h wired = ([], h, refl, λ i. refl, sym (append-nil h.cleared))
handle_irqs-every_second desc line (irq ∷ irqs) h (low, there, small, wired) =
    elim (Bool-cases (h.already_entered irq)) [
      | inl entered ↦
          let h1 : Handling =
            enter irq false (record h { cleared = h.cleared ++ (bit (line irq) ∷ []) }) in
          let (rs, h', e, counts, cleared) = handle_irqs-every_second desc line irqs h1 wired in
          (
            (irq, irq_handled) ∷ rs,
            h',
            ground arith,
            λ i. ground (arith, counts i),
            cleared
                ∙ append_assoc h.cleared (bit (line irq) ∷ []) (bits line rs)
                ∙ ap (λ w. h.cleared ++ (w ∷ bits line rs)) (bit-small (line irq) small),
          )
      | inr first ↦
          let h1 = enter irq true h in
          let (rs, h', e, counts, cleared) = handle_irqs-every_second desc line irqs h1 wired in
          ((irq, irq_none) ∷ rs, h', ground arith, λ i. ground (arith, counts i), cleared)
    ]
