-- ===== src/Fdotp/Fixture.antt =====
-- Natural numbers and a vector unit of two lanes, on which the kernels are tried.
use Prim.Native.Nat.{min}
use native.Mathlib.Nat.{zero-add, add_comm, add_assoc}
use hero_tools.Prelude.{ℕ, ◌+◌, ◌*◌}
use hero_tools.Fdotp.{Scalar, VectorUnit}
use hero_tools.Fdotp.Sum.{IsExact}

abbrev pub naturals : Scalar ℕ
naturals = record { zero = 0; add = ◌+◌; mul = ◌*◌ }

pub naturals-IsExact : IsExact naturals
naturals-IsExact = record { zero_add = zero-add; add_comm = add_comm; add_assoc = add_assoc }

abbrev pub unit : VectorUnit ℕ
unit = record { vsetvli = λ avl. min avl 2; tail = λ x. 777 }
