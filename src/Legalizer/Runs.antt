-- ===== src/Legalizer/Runs.antt =====
-- What is asked of a run of the original code, and what the visits of its instructions give.
use hero_tools.Prelude.{
  ℕ, ◌+◌, ◌/◌, ◌^◌, ◌≤◌, ◌<◌, ◌≡◌, ◌⊎◌, true, false, Option, some, List, [], ◌∷◌,
}
use hero_tools.Prelude.Partial.{Ensures}
use hero_tools.Ir.{
  Types, Value, Inst, load, store, addr_space_cast, ptr_to_int, int_to_ptr, bit_cast, gep, call,
  mem_intrinsic, ret_void, other, data_bits, host_space,
}
use hero_tools.Ir.Meaning.{World, State, step, exec}
use hero_tools.Legalizer.Support.{IsProvided}
use hero_tools.Legalizer.Agree.{Agrees}

module _ {T : Type 0} where
  abbrev pub AllBelow : (n : ℕ) → List (Value T) → Type 0
  AllBelow n [] = Unit
  AllBelow n (v ∷ vs) = (v.name < n) × AllBelow n vs

  -- Every name in an instruction is below `n`.
  abbrev pub IsBelow : (n : ℕ) → Inst T → Type 0
  IsBelow n (load r p) = (r.name < n) × (p.name < n)
  IsBelow n (store p v) = (p.name < n) × (v.name < n)
  IsBelow n (addr_space_cast r p) = (r.name < n) × (p.name < n)
  IsBelow n (ptr_to_int r p) = (r.name < n) × (p.name < n)
  IsBelow n (int_to_ptr r v) = (r.name < n) × (v.name < n)
  IsBelow n (bit_cast r v) = (r.name < n) × (v.name < n)
  IsBelow n (gep e r p i) = (r.name < n) × (p.name < n)
  IsBelow n (call r f vs) = (r.name < n) × AllBelow n vs
  IsBelow n (mem_intrinsic k d v l) = (d.name < n) × (v.name < n) × (l.name < n)
  IsBelow n ret_void = Unit
  IsBelow n (other o r vs) = (r.name < n) × AllBelow n vs

  abbrev pub AreBelow : (n : ℕ) → List (Inst T) → Type 0
  AreBelow n [] = Unit
  AreBelow n (i ∷ is) = IsBelow n i × AreBelow n is

module _ {T : Type 0} (t : Types T) where
  -- The types that a load or a store can have without an assertion that fails.
  abbrev pub IsScalar : T → Type 0
  IsScalar ty =
      (t.is_pointer ty ≡ true) ⊎ ((t.is_first_class ty ≡ true) × (t.is_aggregate ty ≡ false))

module _ {T : Type 0} (t : Types T) (w : World) where
  -- An access of the host's memory is one that the functions of hero_64.h can make: by a pointer,
  -- of a size that they have, below 2^32.
  abbrev pub IsAccess : (p : Value T) → T → State → Type 0
  IsAccess p ty s =
      t.address_space p.ty ≡ host_space t
      → (t.is_pointer p.ty ≡ true)
        × IsScalar t ty
        × IsProvided (data_bits t ty)
        × (s.env p.name + data_bits t ty / 8 ≤ 2 ^ 32)
        × ((x : ℕ) → s.core.memory x < 256)

  abbrev pub Reaches : Inst T → State → Type 0
  Reaches (load r p) s = IsAccess p r.ty s
  Reaches (store p v) s = IsAccess p v.ty s
  Reaches _ s = Unit

  abbrev pub AllReach : List (Inst T) → State → Type 0
  AllReach [] s = Unit
  AllReach (i ∷ is) s = Reaches i s × Ensures (AllReach is) (step t w i s)

  -- The code reaches a state that agrees with where the step leads.
  abbrev pub Follows : (n : ℕ) → List (Inst T) → State → Option State → Type 0
  Follows n code s' o =
      (u : State) → o ≡ some u → (u' : State) × (exec t w code s' ≡ some u') × Agrees n u' u

  -- What a visit gives.
  abbrev pub IsVisited : (n next : ℕ) → Option (List (Inst T) × ℕ) → State → Option State → Type 0
  IsVisited n next visited s' o =
      (code : List (Inst T)) × (next' : ℕ) × (visited ≡ some (code, next'))
      × (next ≤ next')
      × Follows n code s' o
