-- ===== src/Legalizer.antt =====
-- toolchain/llvm-support/OmpHostPointerLegalizer/OmpHostPointerLegalizer.cpp: the pass that turns the accesses
-- of host pointers in a device's code into calls of the functions of hero_64.h. An assertion that fails
-- is `none`; debug locations are left out. New values take the names from `next` on.
pub mod Constants
pub mod Module
pub mod Spaces
pub mod Support
pub mod Agree
pub mod Runs
pub mod Kept
pub mod Visits
pub mod Correct
pub mod Static
pub mod Fixture
pub mod Total
pub mod ConstantLaws
pub mod Typed
mod Tests
use hero_tools.Prelude.{
  ℕ, ◌+◌, Bool, ◌&&◌, ◌||◌, not, Option, some, none, List, [], ◌∷◌, ◌++◌, ltb, ◌==◌, if◌then◌else◌,
}
use hero_tools.Prelude.Partial.{◌>>=◌}
use hero_tools.Ir.{
  Types, Value, hero_load, hero_store, Inst, load, store, addr_space_cast, ptr_to_int, int_to_ptr,
  bit_cast, call, data_bits, host_space,
}

module _ {T : Type 0} (t : Types T) where
  -- Only casts between the host's and the device's address space are modified.
  unfoldable pub is_crossing : (source dest : ℕ) → Bool
  is_crossing source dest =
      let first = if ltb dest source then dest else source in
      let second = if ltb dest source then source else dest in
      let host = host_space t in
      let device = t.program_space in
      first == (if ltb device host then device else host)
      && second == (if ltb host device then device else host)

  -- The cast of an integer back to the type loaded.
  unfoldable pub convert_loaded : (result value : Value T) → Option (Inst T)
  convert_loaded r v =
      if t.is_pointer r.ty
      then some (int_to_ptr r v)
      else if t.is_first_class r.ty && not (t.is_aggregate r.ty)
      then some (bit_cast r v)
      else none

  -- The code, and the next name.
  unfoldable pub visit_load :
      (is_support : Bool) → (next : ℕ) → (result pointer : Value T) → Option (List (Inst T) × ℕ)
  visit_load is_support next r p =
      let ds = data_bits t r.ty in
      let pii : Value T = record { name = next; ty = t.int_n (t.alloc_bits p.ty) } in
      let ci : Value T = record { name = next + 1; ty = t.int_n ds } in
      let kept : List (Inst T) = load r p ∷ [] in
      if is_support || not (t.address_space p.ty == host_space t)
      then some (kept, next)
      else if t.same r.ty (t.int_n ds)
      then some (ptr_to_int pii p ∷ call r (hero_load ds) (pii ∷ []) ∷ [], next + 1)
      else convert_loaded r ci >>= λ cti.
          some (ptr_to_int pii p ∷ call ci (hero_load ds) (pii ∷ []) ∷ cti ∷ [], next + 2)

  -- The cast of the value stored to an integer.
  unfoldable pub convert_stored : (result value : Value T) → Option (Inst T)
  convert_stored r v =
      if t.is_pointer v.ty
      then some (ptr_to_int r v)
      else if t.is_first_class v.ty && not (t.is_aggregate v.ty)
      then some (bit_cast r v)
      else none

  -- The call has no result, and a name for it.
  unfoldable pub visit_store : (next : ℕ) → (pointer value : Value T) → Option (List (Inst T) × ℕ)
  visit_store next p v =
      let ds = data_bits t v.ty in
      let pii : Value T = record { name = next; ty = t.int_n (t.alloc_bits p.ty) } in
      let svi : Value T = record { name = next + 1; ty = t.int_n ds } in
      let ci : Value T = record { name = next + 2; ty = t.int_n ds } in
      let kept : List (Inst T) = store p v ∷ [] in
      if not (t.address_space p.ty == host_space t)
      then some (kept, next)
      else if t.same v.ty (t.int_n ds)
      then some (ptr_to_int pii p ∷ call ci (hero_store ds) (pii ∷ v ∷ []) ∷ [], next + 3)
      else convert_stored svi v >>= λ cast.
          some (ptr_to_int pii p ∷ cast ∷ call ci (hero_store ds) (pii ∷ svi ∷ []) ∷ [], next + 3)

  unfoldable pub visit_addr_space_cast :
      (next : ℕ) → (result pointer : Value T) → Option (List (Inst T) × ℕ)
  visit_addr_space_cast next r p =
      let pii : Value T = record { name = next; ty = t.int_n (t.alloc_bits r.ty) } in
      let kept : List (Inst T) = addr_space_cast r p ∷ [] in
      if is_crossing (t.address_space p.ty) (t.address_space r.ty)
      then some (ptr_to_int pii p ∷ int_to_ptr r pii ∷ [], next + 1)
      else some (kept, next)

  -- The visitor has no other methods.
  unfoldable pub visit : (is_support : Bool) → (next : ℕ) → Inst T → Option (List (Inst T) × ℕ)
  visit is_support next (load r p) = visit_load is_support next r p
  visit is_support next (store p v) = visit_store next p v
  visit is_support next (addr_space_cast r p) = visit_addr_space_cast next r p
  visit is_support next i = some (i ∷ [], next)

  -- The instructions that a visit inserts are not visited.
  unfoldable pub visit_all :
      (is_support : Bool) → (next : ℕ) → List (Inst T) → Option (List (Inst T))
  visit_all is_support next [] = some []
  visit_all is_support next (i ∷ is) = visit is_support next i >>= λ (code, next').
      visit_all is_support next' is >>= λ rest. some (code ++ rest)
