-- ===== src/Legalizer/ConstantLaws.antt =====
-- Constant expressions keep their values, and have no cast between the host's and the device's spaces left
-- where the pass descends.
use native.Mathlib.Nat.{mod-mod}
use hero_tools.Prelude.{ℕ, ◌%◌, ◌^◌, ◌≡◌, refl, ◌∙◌, ap, ap₂, inl, inr, List, [], ◌∷◌, Bool-cases}
use hero_tools.Ir.{Types, IsLlvm}
use hero_tools.Legalizer.{is_crossing}
use hero_tools.Legalizer.Spaces.{IsWithin, is_crossing-IsWithin}
use hero_tools.Legalizer.Constants.{
  Const, Consts, constant, addr_space_cast, ptr_to_int, int_to_ptr, expr, nil, cons, type_of,
  handle, handle_all,
}

module _ {T : Type 0} (t : Types T) (operate : (opcode : ℕ) → List ℕ → ℕ) where
  -- The bits of a constant, by LLVM's language reference; those of the other operations are a parameter.
  unfoldable mutual
    pub value : Const T → ℕ
    value (constant ty bits) = bits
    value (addr_space_cast ty c) = value c % 2 ^ t.alloc_bits ty
    value (ptr_to_int ty c) = value c % 2 ^ t.primitive_bits ty
    value (int_to_ptr ty c) = value c % 2 ^ t.alloc_bits ty
    value (expr ty opcode cs) = operate opcode (values cs)

    pub values : Consts T → List ℕ
    values nil = []
    values (cons c cs) = value c ∷ values cs

module _ {T : Type 0} (t : Types T) where
  -- No cast between the host's and the device's address spaces, but under another cast.
  mutual
    pub IsPatched : Const T → Type 0
    IsPatched (constant ty bits) = Unit
    IsPatched (addr_space_cast ty c) = IsWithin t (t.address_space (type_of c)) (t.address_space ty)
    IsPatched (ptr_to_int ty c) = IsPatched c
    IsPatched (int_to_ptr ty c) = IsPatched c
    IsPatched (expr ty opcode cs) = ArePatched cs

    ArePatched : Consts T → Type 0
    ArePatched nil = Unit
    ArePatched (cons c cs) = IsPatched c × ArePatched cs

module _ {T : Type 0} (t : Types T) (l : IsLlvm t) (operate : (opcode : ℕ) → List ℕ → ℕ) where
  mutual
    unfolding handle value IsPatched

    handled :
        (c : Const T)
        → (value t operate (handle t c) ≡ value t operate c) × IsPatched t (handle t c)
    handled (constant ty bits) = (refl, tt)
    handled (addr_space_cast ty c) =
        let (same, patched) = handled c in
        elim (Bool-cases (is_crossing t (t.address_space (type_of c)) (t.address_space ty))) [
          | inl crossing ↦
              let bits = t.alloc_bits ty in
              rw crossing (
                ap (λ k. value t operate (handle t c) % 2 ^ k % 2 ^ bits) (l.primitive_int bits)
                    ∙ mod-mod (value t operate (handle t c)) (2 ^ bits)
                    ∙ ap (λ x. x % 2 ^ bits) same,
                patched,
              )
          | inr inside ↦ rw inside (
            refl,
            is_crossing-IsWithin t (t.address_space (type_of c)) (t.address_space ty) inside,
          )
        ]
    handled (ptr_to_int ty c) =
        let (same, patched) = handled c in (ap (λ x. x % 2 ^ t.primitive_bits ty) same, patched)
    handled (int_to_ptr ty c) =
        let (same, patched) = handled c in (ap (λ x. x % 2 ^ t.alloc_bits ty) same, patched)
    handled (expr ty opcode cs) =
        let (same, patched) = handled_all cs in (ap (operate opcode) same, patched)

    handled_all :
        (cs : Consts T)
        → (values t operate (handle_all t cs) ≡ values t operate cs)
          × ArePatched t (handle_all t cs)
    handled_all nil = (refl, tt)
    handled_all (cons c cs) =
        let (same, patched) = handled c in
        let (all, all_patched) = handled_all cs in (ap₂ ◌∷◌ same all, (patched, all_patched))

  -- `handleConstExpr` keeps the value of a constant expression, and leaves no cast between the
  -- host's and the device's address spaces in it but under a cast of another kind, where it does
  -- not descend.
  pub handle-value :
      (c : Const T) → (value t operate (handle t c) ≡ value t operate c) × IsPatched t (handle t c)
  handle-value c = handled c
