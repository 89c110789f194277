-- ===== src/Legalizer/Fixture.antt =====
-- Types of a 32-bit device with a 64-bit host, on which the passes are tried.
use hero_tools.Prelude.{ℕ, ◌≡◌, ◌↔◌, refl, Bool, true, false, arith, ◌==◌, if◌then◌else◌}
use hero_tools.Ir.{Types, IsLlvm}
use hero_tools.Ir.Meaning.{World}

-- Integers, floats of 32 bits, and pointers of 32 bits on the device and 64 on the host.
pub data Ty : Type 0 where
  int : ℕ → Ty
  float : Ty
  pointer : (space : ℕ) → Ty

abbrev pub same : Ty → Ty → Bool
same (int a) (int b) = a == b
same float float = true
same (pointer a) (pointer b) = a == b
same _ _ = false

abbrev pub types : Types Ty
types = record {
  int_n = int;
  pointer_to = λ ty space. pointer space;
  is_pointer = λ ty. elim ty [ pointer space ↦ true | _ ↦ false ];
  is_first_class = λ ty. true;
  is_aggregate = λ ty. false;
  address_space = λ ty. elim ty [ pointer space ↦ space | _ ↦ 0 ];
  primitive_bits = λ ty. elim ty [ int n ↦ n | float ↦ 32 | pointer space ↦ 0 ];
  alloc_bits =
      λ ty. elim ty [ int n ↦ n | float ↦ 32 | pointer space ↦ if space == 1 then 64 else 32 ];
  same = same;
  program_space = 0;
}

same_lem : (a b : Ty) → (same a b ≡ true) ↔ (a ≡ b)
same_lem (int a) (int b) = ground arith
same_lem float float = ground arith
same_lem (pointer a) (pointer b) = ground arith
same_lem (int a) float = ground arith
same_lem (int a) (pointer b) = ground arith
same_lem float (int b) = ground arith
same_lem float (pointer b) = ground arith
same_lem (pointer a) (int b) = ground arith
same_lem (pointer a) float = ground arith

pub types-IsLlvm : IsLlvm types
types-IsLlvm = record {
  same_iff = same_lem;
  primitive_int = λ bits. refl;
  int_pointer = λ bits. refl;
  primitive_pointer = λ ty h. ground arith;
  pointer_pointer = λ ty space. refl;
  pointer_space = λ ty space. refl;
  alloc_int = refl;
  host_pointer = λ ty h host. ground arith;
}

abbrev pub world : World
world = record { called = λ f xs m. (0, m); intrinsic = λ k xs m. m; effect = λ o xs m. (0, m) }
