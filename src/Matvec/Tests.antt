-- ===== src/Matvec/Tests.antt =====
-- A product with three rows of two numbers, and transfers that leave 99 until they are waited for.
use hero_tools.Prelude.{ℕ, zero, suc, ◌+◌, ◌*◌, ◌≡◌, ◌<◌, refl, arith, some, [], ap₂, inl}
use hero_tools.Prelude.Int.{pos}
use hero_tools.Matvec.{Args, matvec}
use hero_tools.Matvec.Dma.{Machine, Device}
use hero_tools.Matvec.Laws.{IsLocal, AreLaidOut, result, IsKept}
use hero_tools.Matvec.Result.{matvec-product}

-- The sum of the products, the last first.
abbrev dot : (x w : ℕ → ℕ) → ℕ → ℕ
dot x w zero = 0
dot x w (suc n) = x n * w n + dot x w n

dot-IsLocal : IsLocal dot
dot-IsLocal x y v w zero same_x same_w = refl
dot-IsLocal x y v w (suc n) same_x same_w =
    ap₂ ◌+◌ (ap₂ ◌*◌ (same_x n (omega arith)) (same_w n (omega arith)))
      (dot-IsLocal x y v w n (λ j lo. same_x j (omega arith)) λ j lo. same_w j (omega arith))

abbrev cluster : Machine ℕ
cluster = record { of_int = λ i. i; fdotp_32b = dot; core_idx = λ i. i; junk = λ k j. 99 }

abbrev args : Args
args = record { n = 2; d = 3; xout_p = 0x3000; x_p = 0x1000; w_p = 0x2000 }

-- Every float is its address.
abbrev device : Device ℕ
device = record { mem = λ p. p; x = λ j. 0; rows = λ k j. 0; pending = []; issued = 0 }

layout : AreLaidOut args
layout = record {
  x_fits = omega arith;
  w_fits = omega arith;
  out_fits = omega arith;
  x_apart = inl (omega arith);
  w_apart = inl (omega arith);
}

matvec-product_example :
    (s' : Device ℕ) × (matvec cluster args 3 device ≡ some (pos 0, s'))
    × ((r : ℕ) → r < 3 → s'.mem (0x3000 + 4 * r) ≡ result cluster args device.mem r)
    × IsKept cluster args device.mem s'
matvec-product_example =
    matvec-product cluster args (λ i. refl) dot-IsLocal layout device 2 (omega arith) (omega arith)
      refl (omega arith) (omega arith) (omega arith) (omega arith) (omega arith)
