-- ===== src/Legalizer/Typed.antt =====
-- The types of the code that the visits give.
use hero_tools.Prelude.{
  ℕ, ◌≡◌, ◌≢◌, refl, sym, ◌∙◌, ap, inl, inr, ◌+◌, Bool, true, false, ◌&&◌, not, Option, List, [],
  ◌∷◌, ◌++◌, arith, ◌==◌, ==_false, Bool-cases,
}
use hero_tools.Prelude.Partial.{Ensures, Ensures-bind}
use hero_tools.Ir.{
  Types, IsLlvm, Value, hero_load, hero_store, Inst, load, store, addr_space_cast, ptr_to_int,
  int_to_ptr, bit_cast, gep, call, mem_intrinsic, ret_void, other, data_bits, host_space,
}
use hero_tools.Legalizer.{
  is_crossing, convert_loaded, convert_stored, visit_load, visit_store, visit_addr_space_cast,
  visit, visit_all,
}

module _ {T : Type 0} (t : Types T) where
  abbrev pub IsInt : T → Type 0
  IsInt ty = (bits : ℕ) × (ty ≡ t.int_n bits)

  -- "uintN_t hero_load_uintN(uint64_t)"
  abbrev pub IsLoadCall : (bits : ℕ) → Value T → List (Value T) → Type 0
  IsLoadCall bits r (p ∷ []) = (r.ty ≡ t.int_n bits) × (p.ty ≡ t.int_n 64)
  IsLoadCall bits r _ = ⊥

  -- "void hero_store_uintN(uint64_t, uintN_t)"
  abbrev pub IsStoreCall : (bits : ℕ) → List (Value T) → Type 0
  IsStoreCall bits (p ∷ v ∷ []) = (p.ty ≡ t.int_n 64) × (v.ty ≡ t.int_n bits)
  IsStoreCall bits _ = ⊥

  -- The operands and the results have types that the instruction can have.
  abbrev pub IsTyped : Inst T → Type 0
  IsTyped (load r p) = (t.is_pointer p.ty ≡ true) × (data_bits t r.ty ≢ 0)
  IsTyped (store p v) = (t.is_pointer p.ty ≡ true) × (data_bits t v.ty ≢ 0)
  IsTyped (addr_space_cast r p) = (t.is_pointer r.ty ≡ true) × (t.is_pointer p.ty ≡ true)
  IsTyped (ptr_to_int r p) = IsInt r.ty × (t.is_pointer p.ty ≡ true)
  IsTyped (int_to_ptr r v) = (t.is_pointer r.ty ≡ true) × IsInt v.ty
  IsTyped (bit_cast r v) =
      (t.is_pointer r.ty ≡ false)
      × (t.is_pointer v.ty ≡ false)
      × (data_bits t r.ty ≡ data_bits t v.ty)
  IsTyped (call r (hero_load bits) vs) = IsLoadCall bits r vs
  IsTyped (call r (hero_store bits) vs) = IsStoreCall bits vs
  IsTyped _ = Unit

  abbrev pub AreTyped : List (Inst T) → Type 0
  AreTyped [] = Unit
  AreTyped (i ∷ is) = IsTyped i × AreTyped is

  append-AreTyped : (is js : List (Inst T)) → AreTyped is → AreTyped js → AreTyped (is ++ js)
  append-AreTyped [] js h k = k
  append-AreTyped (i ∷ is) js (first, h) k = (first, append-AreTyped is js h k)

module _ {T : Type 0} (t : Types T) (l : IsLlvm t) where
  data_bits-int : (bits : ℕ) → bits ≢ 0 → data_bits t (t.int_n bits) ≡ bits
  data_bits-int bits pos = rw (l.primitive_int bits, ==_false bits 0 pos) refl

  same_type : (a b : T) → t.same a b ≡ true → a ≡ b
  same_type a b e = (l.same_iff a b).0 e

  convert_loaded-IsTyped :
      (r v : Value T) (bits : ℕ)
      → v.ty ≡ t.int_n bits
      → data_bits t r.ty ≡ bits
      → bits ≢ 0
      → Ensures (IsTyped t) (convert_loaded t r v)
  unfolding convert_loaded
  convert_loaded-IsTyped r v bits int size pos = elim (Bool-cases (t.is_pointer r.ty)) [
    | inl pointer ↦ rw pointer (pointer, (bits, int))
    | inr plain ↦ elim (Bool-cases (t.is_first_class r.ty && not (t.is_aggregate r.ty))) [
      | inl scalar ↦
          rw (plain, scalar)
            (
              plain,
              ap t.is_pointer int ∙ l.int_pointer bits,
              size ∙ sym (ap (data_bits t) int ∙ data_bits-int bits pos),
            )
      | inr aggregate ↦ rw (plain, aggregate) tt
    ]
  ]

  convert_stored-IsTyped :
      (r v : Value T) (bits : ℕ)
      → r.ty ≡ t.int_n bits
      → data_bits t v.ty ≡ bits
      → bits ≢ 0
      → Ensures (IsTyped t) (convert_stored t r v)
  unfolding convert_stored
  convert_stored-IsTyped r v bits int size pos = elim (Bool-cases (t.is_pointer v.ty)) [
    | inl pointer ↦ rw pointer ((bits, int), pointer)
    | inr plain ↦ elim (Bool-cases (t.is_first_class v.ty && not (t.is_aggregate v.ty))) [
      | inl scalar ↦
          rw (plain, scalar)
            (
              ap t.is_pointer int ∙ l.int_pointer bits,
              plain,
              ap (data_bits t) int ∙ data_bits-int bits pos ∙ sym size,
            )
      | inr aggregate ↦ rw (plain, aggregate) tt
    ]
  ]

  host_width :
      (p : Value T)
      → t.is_pointer p.ty ≡ true
      → (t.address_space p.ty == host_space t) ≡ true
      → t.int_n (t.alloc_bits p.ty) ≡ t.int_n 64
  host_width p pointer host = ap t.int_n (l.host_pointer p.ty pointer (ground arith))

  -- What a visit gives is typed.
  abbrev GivesTyped : Option (List (Inst T) × ℕ) → Type 0
  GivesTyped o = Ensures (λ (c : List (Inst T) × ℕ). AreTyped t c.0) o

  visit_load-AreTyped :
      (is_support : Bool) (next : ℕ) (r p : Value T)
      → IsTyped t (load r p)
      → GivesTyped (visit_load t is_support next r p)
  unfolding visit_load
  visit_load-AreTyped true next r p typed = (typed, tt)
  visit_load-AreTyped false next r p (pointer, sized) =
      elim (Bool-cases (t.address_space p.ty == host_space t)) [
        | inr device ↦ rw device ((pointer, sized), tt)
        | inl host ↦
            let ds = data_bits t r.ty in
            let ci : Value T = record { name = next + 1; ty = t.int_n ds } in
            let width = host_width p pointer host in
            elim (Bool-cases (t.same r.ty (t.int_n ds))) [
              | inl same ↦
                  rw (host, same)
                    (((_, refl), pointer), ((same_type r.ty (t.int_n ds) same, width), tt))
              | inr differs ↦
                  rw (host, differs)
                    (Ensures-bind (IsTyped t) _ (convert_loaded t r ci) _
                      (convert_loaded-IsTyped r ci ds refl refl sized)
                      λ cti typed. (((_, refl), pointer), ((refl, width), (typed, tt))))
            ]
      ]

  visit_store-AreTyped :
      (next : ℕ) (p v : Value T) → IsTyped t (store p v) → GivesTyped (visit_store t next p v)
  unfolding visit_store
  visit_store-AreTyped next p v (pointer, sized) =
      elim (Bool-cases (t.address_space p.ty == host_space t)) [
        | inr device ↦ rw device ((pointer, sized), tt)
        | inl host ↦
            let ds = data_bits t v.ty in
            let svi : Value T = record { name = next + 1; ty = t.int_n ds } in
            let width = host_width p pointer host in
            elim (Bool-cases (t.same v.ty (t.int_n ds))) [
              | inl same ↦
                  rw (host, same)
                    (((_, refl), pointer), ((width, same_type v.ty (t.int_n ds) same), tt))
              | inr differs ↦
                  rw (host, differs)
                    (Ensures-bind (IsTyped t) _ (convert_stored t svi v) _
                      (convert_stored-IsTyped svi v ds refl refl sized)
                      λ cast typed. (((_, refl), pointer), (typed, ((width, refl), tt))))
            ]
      ]

  visit_cast-AreTyped :
      (next : ℕ) (r p : Value T)
      → IsTyped t (addr_space_cast r p)
      → GivesTyped (visit_addr_space_cast t next r p)
  unfolding visit_addr_space_cast
  visit_cast-AreTyped next r p (to, from) =
      elim (Bool-cases (is_crossing t (t.address_space p.ty) (t.address_space r.ty))) [
        | inl crossing ↦ rw crossing (((_, refl), from), ((to, (_, refl)), tt))
        | inr inside ↦ rw inside ((to, from), tt)
      ]

  visit-AreTyped :
      (is_support : Bool) (next : ℕ) (i : Inst T)
      → IsTyped t i
      → GivesTyped (visit t is_support next i)
  unfolding visit
  visit-AreTyped is_support next (load r p) typed = visit_load-AreTyped is_support next r p typed
  visit-AreTyped is_support next (store p v) typed = visit_store-AreTyped next p v typed
  visit-AreTyped is_support next (addr_space_cast r p) typed = visit_cast-AreTyped next r p typed
  visit-AreTyped is_support next (ptr_to_int r p) typed = (typed, tt)
  visit-AreTyped is_support next (int_to_ptr r v) typed = (typed, tt)
  visit-AreTyped is_support next (bit_cast r v) typed = (typed, tt)
  visit-AreTyped is_support next (gep e r p i) typed = (typed, tt)
  visit-AreTyped is_support next (call r f vs) typed = (typed, tt)
  visit-AreTyped is_support next (mem_intrinsic k d v m) typed = (typed, tt)
  visit-AreTyped is_support next ret_void typed = (typed, tt)
  visit-AreTyped is_support next (other o r vs) typed = (typed, tt)

  -- From typed instructions the pass makes typed ones, when no assertion fails: every conversion
  -- is one that LLVM has, and every call of a function of hero_64.h has the types of its
  -- declaration.
  pub visit_all-AreTyped :
      (is_support : Bool) (next : ℕ) (is : List (Inst T))
      → AreTyped t is
      → Ensures (AreTyped t) (visit_all t is_support next is)
  unfolding visit_all
  visit_all-AreTyped is_support next [] typed = tt
  visit_all-AreTyped is_support next (i ∷ is) (first, typed) =
      Ensures-bind (λ (c : List (Inst T) × ℕ). AreTyped t c.0) _ (visit t is_support next i) _
        (visit-AreTyped is_support next i first)
        λ c here.
          Ensures-bind (AreTyped t) _ (visit_all t is_support c.1 is) _
            (visit_all-AreTyped is_support c.1 is typed)
            λ rest there. append-AreTyped t c.0 rest here there
