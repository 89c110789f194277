-- ===== src/Legalizer/Total.antt =====
-- The pass on a module whose loads and stores are of scalars: no assertion fails.
use mathlib.Core.List.{map}
use hero_tools.Prelude.{
  ℕ, ◌+◌, ◌≡◌, inl, inr, refl, Bool, true, false, Option, some, List, [], ◌∷◌, ◌++◌, ◌==◌,
  Bool-cases,
}
use hero_tools.Prelude.Partial.{◌>>=◌, Ensures_some}
use hero_tools.Ir.{
  Types, Value, MemKind, Inst, load, store, addr_space_cast, ptr_to_int, int_to_ptr, bit_cast, gep,
  call, mem_intrinsic, ret_void, other, data_bits, host_space,
}
use hero_tools.Legalizer.{
  is_crossing, convert_loaded, convert_stored, visit_load, visit_store, visit_addr_space_cast,
  visit, visit_all,
}
use hero_tools.Legalizer.Module.{
  Function, Expand, is_support, map_some, is_device_only, expand_mem_intrinsic_uses,
  expand_function, visit_function, handle_function, run_on_module,
}
use hero_tools.Legalizer.Runs.{IsScalar}
use hero_tools.Legalizer.Static.{AreAllLegal, Expands, visited-AreAllLegal, handled-AreAllLegal}

-- There is a result.
abbrev Returns {ℓ} : {A : Type ℓ} → Option A → Type ℓ
Returns {A = A} o = (a : A) × (o ≡ some a)

bind-Returns {ℓ κ} :
    {A : Type ℓ} {B : Type κ} (o : Option A) (f : A → Option B)
    → Returns o
    → ((a : A) → Returns (f a))
    → Returns (o >>= f)
bind-Returns o f (a, e) next = rw e (next a)

module _ {T : Type 0} (t : Types T) where
  abbrev pub HasScalars : Inst T → Type 0
  HasScalars (load r p) = IsScalar t r.ty
  HasScalars (store p v) = IsScalar t v.ty
  HasScalars _ = Unit

  abbrev pub HaveScalars : List (Inst T) → Type 0
  HaveScalars [] = Unit
  HaveScalars (i ∷ is) = HasScalars i × HaveScalars is

  abbrev pub AllHaveScalars : List (Function T) → Type 0
  AllHaveScalars [] = Unit
  AllHaveScalars (f ∷ fs) = HaveScalars f.body × AllHaveScalars fs

  append-HaveScalars :
      (is js : List (Inst T)) → HaveScalars is → HaveScalars js → HaveScalars (is ++ js)
  append-HaveScalars [] js h k = k
  append-HaveScalars (i ∷ is) js (first, h) k = (first, append-HaveScalars is js h k)

  convert_loaded-Returns : (r v : Value T) → IsScalar t r.ty → Returns (convert_loaded t r v)
  unfolding convert_loaded
  convert_loaded-Returns r v (inl pointer) = (int_to_ptr r v, rw pointer refl)
  convert_loaded-Returns r v (inr (first, plain)) = elim (Bool-cases (t.is_pointer r.ty)) [
    | inl pointer ↦ (int_to_ptr r v, rw pointer refl)
    | inr no_pointer ↦ (bit_cast r v, rw (no_pointer, first, plain) refl)
  ]

  convert_stored-Returns : (r v : Value T) → IsScalar t v.ty → Returns (convert_stored t r v)
  unfolding convert_stored
  convert_stored-Returns r v (inl pointer) = (ptr_to_int r v, rw pointer refl)
  convert_stored-Returns r v (inr (first, plain)) = elim (Bool-cases (t.is_pointer v.ty)) [
    | inl pointer ↦ (ptr_to_int r v, rw pointer refl)
    | inr no_pointer ↦ (bit_cast r v, rw (no_pointer, first, plain) refl)
  ]

  visit_load-Returns :
      (own : Bool) (next : ℕ) (r p : Value T)
      → IsScalar t r.ty
      → Returns (visit_load t own next r p)
  unfolding visit_load
  visit_load-Returns true next r p scalar = ((load r p ∷ [], next), refl)
  visit_load-Returns false next r p scalar =
      let ds = data_bits t r.ty in
      let ci : Value T = record { name = next + 1; ty = t.int_n ds } in
      let (cti, converted) = convert_loaded-Returns r ci scalar in
      elim (Bool-cases (t.address_space p.ty == host_space t)) [
        | inr device ↦ rw device (_, refl)
        | inl host ↦ elim (Bool-cases (t.same r.ty (t.int_n ds))) [
          | inl same ↦ rw (host, same) (_, refl)
          | inr differs ↦ rw (host, differs, converted) (_, refl)
        ]
      ]

  visit_store-Returns :
      (next : ℕ) (p v : Value T) → IsScalar t v.ty → Returns (visit_store t next p v)
  unfolding visit_store
  visit_store-Returns next p v scalar =
      let ds = data_bits t v.ty in
      let svi : Value T = record { name = next + 1; ty = t.int_n ds } in
      let (cast, converted) = convert_stored-Returns svi v scalar in
      elim (Bool-cases (t.address_space p.ty == host_space t)) [
        | inr device ↦ rw device (_, refl)
        | inl host ↦ elim (Bool-cases (t.same v.ty (t.int_n ds))) [
          | inl same ↦ rw (host, same) (_, refl)
          | inr differs ↦ rw (host, differs, converted) (_, refl)
        ]
      ]

  visit-Returns : (own : Bool) (next : ℕ) (i : Inst T) → HasScalars i → Returns (visit t own next i)
  unfolding visit visit_addr_space_cast
  visit-Returns own next (load r p) scalar = visit_load-Returns own next r p scalar
  visit-Returns own next (store p v) scalar = visit_store-Returns next p v scalar
  visit-Returns own next (addr_space_cast r p) scalar =
      elim (Bool-cases (is_crossing t (t.address_space p.ty) (t.address_space r.ty))) [
        | inl crossing ↦ rw crossing (_, refl)
        | inr inside ↦ rw inside (_, refl)
      ]
  visit-Returns own next (ptr_to_int r p) scalar = (_, refl)
  visit-Returns own next (int_to_ptr r v) scalar = (_, refl)
  visit-Returns own next (bit_cast r v) scalar = (_, refl)
  visit-Returns own next (gep e r p i) scalar = (_, refl)
  visit-Returns own next (call r f vs) scalar = (_, refl)
  visit-Returns own next (mem_intrinsic k d v m) scalar = (_, refl)
  visit-Returns own next ret_void scalar = (_, refl)
  visit-Returns own next (other o r vs) scalar = (_, refl)

  visit_all-Returns :
      (own : Bool) (next : ℕ) (is : List (Inst T))
      → HaveScalars is
      → Returns (visit_all t own next is)
  unfolding visit_all
  visit_all-Returns own next [] scalars = ([], refl)
  visit_all-Returns own next (i ∷ is) (first, scalars) =
      bind-Returns (visit t own next i) _ (visit-Returns own next i first) λ c.
        bind-Returns (visit_all t own c.1 is) _ (visit_all-Returns own c.1 is scalars)
          λ rest. (c.0 ++ rest, refl)

  visit_function-Returns : (f : Function T) → HaveScalars f.body → Returns (visit_function t f)
  unfolding visit_function
  visit_function-Returns f scalars =
      bind-Returns (visit_all t (is_support f.name) f.next f.body) _
        (visit_all-Returns (is_support f.name) f.next f.body scalars)
        λ body. (record f { body = body }, refl)

module _ {T : Type 0} (t : Types T) (expand : Expand T) (expands : Expands t expand)
    (scalars : (k : MemKind) (d s n : Value T) (next : ℕ)
      → HaveScalars t (expand k d s n next).0) where
  expanded-HaveScalars :
      (next : ℕ) (is : List (Inst T))
      → HaveScalars t is
      → HaveScalars t (expand_mem_intrinsic_uses t expand next is).0
  unfolding expand_mem_intrinsic_uses
  expanded-HaveScalars next [] h = tt
  expanded-HaveScalars next (mem_intrinsic k d s n ∷ is) (first, h) =
      elim (Bool-cases (is_device_only t k d s)) [
        | inl own ↦ rw own (tt, expanded-HaveScalars next is h)
        | inr host ↦ rw host (
            append-HaveScalars t (expand k d s n next).0 _ (scalars k d s n next)
              (expanded-HaveScalars (expand k d s n next).1 is h))
      ]
  expanded-HaveScalars next (load r p ∷ is) (first, h) = (first, expanded-HaveScalars next is h)
  expanded-HaveScalars next (store p v ∷ is) (first, h) = (first, expanded-HaveScalars next is h)
  expanded-HaveScalars next (addr_space_cast r p ∷ is) (_, h) = (tt, expanded-HaveScalars next is h)
  expanded-HaveScalars next (ptr_to_int r p ∷ is) (_, h) = (tt, expanded-HaveScalars next is h)
  expanded-HaveScalars next (int_to_ptr r v ∷ is) (_, h) = (tt, expanded-HaveScalars next is h)
  expanded-HaveScalars next (bit_cast r v ∷ is) (_, h) = (tt, expanded-HaveScalars next is h)
  expanded-HaveScalars next (gep e r p i ∷ is) (_, h) = (tt, expanded-HaveScalars next is h)
  expanded-HaveScalars next (call r f vs ∷ is) (_, h) = (tt, expanded-HaveScalars next is h)
  expanded-HaveScalars next (ret_void ∷ is) (_, h) = (tt, expanded-HaveScalars next is h)
  expanded-HaveScalars next (other o r vs ∷ is) (_, h) = (tt, expanded-HaveScalars next is h)

  visited-Returns :
      (fs : List (Function T))
      → AllHaveScalars t fs
      → Returns (map_some (visit_function t) (map (expand_function t expand) fs))
  unfolding expand_function
  visited-Returns [] h = ([], refl)
  visited-Returns (f ∷ fs) (first, h) =
      bind-Returns (visit_function t (expand_function t expand f)) _
        (visit_function-Returns t (expand_function t expand f)
          (expanded-HaveScalars f.next f.body first))
        λ g.
          bind-Returns (map_some (visit_function t) (map (expand_function t expand) fs)) _
            (visited-Returns fs h) λ gs. (g ∷ gs, refl)

  -- The pass runs on a module without a failed assertion, and then no function of it has a store,
  -- a cast between the host's and the device's address spaces or a memory intrinsic that works on
  -- the host's memory, and only the support functions, by their names, have a load from it. What
  -- the module loads and stores are scalars, and LLVM's expansions of the memory intrinsics load
  -- and store scalars and have no intrinsic on the host's memory themselves.
  pub run_on_module-AreAllLegal :
      (fs : List (Function T))
      → AllHaveScalars t fs
      → (gs : List (Function T)) × (run_on_module t expand fs ≡ some gs) × AreAllLegal t gs
  unfolding run_on_module
  run_on_module-AreAllLegal fs h =
      let (hs, e) = visited-Returns fs h in
      (
        map (handle_function t) hs,
        rw e refl,
        handled-AreAllLegal t hs
            (Ensures_some (AreAllLegal t) (visited-AreAllLegal t expand expands fs) e),
      )
