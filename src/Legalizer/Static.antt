-- ===== src/Legalizer/Static.antt =====
-- No instruction of a module works on the host's memory when the pass has run.
use mathlib.Core.List.{map}
use hero_tools.Prelude.{
  ℕ, ◌+◌, ◌≡◌, ◌⊎◌, inl, inr, refl, Bool, true, false, Option, List, [], ◌∷◌, ◌++◌, arith, ◌==◌,
  Bool-cases,
}
use hero_tools.Prelude.Partial.{Ensures, Ensures-bind}
use hero_tools.Ir.{
  Types, Value, MemKind, Inst, load, store, addr_space_cast, ptr_to_int, int_to_ptr, bit_cast, gep,
  call, mem_intrinsic, ret_void, other, data_bits, host_space,
}
use hero_tools.Legalizer.{
  is_crossing, convert_loaded, convert_stored, visit_load, visit_store, visit_addr_space_cast,
  visit, visit_all,
}
use hero_tools.Legalizer.Spaces.{
  IsWithin, is_crossing-IsWithin, IsOwnIntrinsic, is_device_only-IsOwnIntrinsic,
}
use hero_tools.Legalizer.Module.{
  Function, Expand, is_support, map_some, is_device_only, expand_mem_intrinsic_uses,
  expand_function, visit_function, handle_function,
}

module _ {T : Type 0} (t : Types T) where
  abbrev pub IsExpanded : Inst T → Type 0
  IsExpanded (mem_intrinsic k d s n) = IsOwnIntrinsic t k d s
  IsExpanded _ = Unit

  -- The device can do the instruction by itself; `own` code may load from the host's memory.
  abbrev pub IsLegal : (own : Bool) → Inst T → Type 0
  IsLegal own (load r p) = (own ≡ true) ⊎ ((t.address_space p.ty == host_space t) ≡ false)
  IsLegal own (store p v) = (t.address_space p.ty == host_space t) ≡ false
  IsLegal own (addr_space_cast r p) = IsWithin t (t.address_space p.ty) (t.address_space r.ty)
  IsLegal own i = IsExpanded i

  abbrev pub AreExpanded : List (Inst T) → Type 0
  AreExpanded [] = Unit
  AreExpanded (i ∷ is) = IsExpanded i × AreExpanded is

  abbrev pub AreLegal : (own : Bool) → List (Inst T) → Type 0
  AreLegal own [] = Unit
  AreLegal own (i ∷ is) = IsLegal own i × AreLegal own is

  append-AreExpanded :
      (is js : List (Inst T)) → AreExpanded is → AreExpanded js → AreExpanded (is ++ js)
  append-AreExpanded [] js h k = k
  append-AreExpanded (i ∷ is) js (first, h) k = (first, append-AreExpanded is js h k)

  append-AreLegal :
      (own : Bool) (is js : List (Inst T))
      → AreLegal own is
      → AreLegal own js
      → AreLegal own (is ++ js)
  append-AreLegal own [] js h k = k
  append-AreLegal own (i ∷ is) js (first, h) k = (first, append-AreLegal own is js h k)

  abbrev pub AreAllLegal : List (Function T) → Type 0
  AreAllLegal [] = Unit
  AreAllLegal (f ∷ fs) = AreLegal (is_support f.name) f.body × AreAllLegal fs

  abbrev GivesLegal : (own : Bool) → Option (List (Inst T) × ℕ) → Type 0
  GivesLegal own o = Ensures (λ (c : List (Inst T) × ℕ). AreLegal own c.0) o

  convert_loaded-IsLegal :
      (own : Bool) (r v : Value T) → Ensures (IsLegal own) (convert_loaded t r v)
  unfolding convert_loaded
  convert_loaded-IsLegal own r v = ground arith

  convert_stored-IsLegal :
      (own : Bool) (r v : Value T) → Ensures (IsLegal own) (convert_stored t r v)
  unfolding convert_stored
  convert_stored-IsLegal own r v = ground arith

  visit_load-AreLegal :
      (own : Bool) (next : ℕ) (r p : Value T) → GivesLegal own (visit_load t own next r p)
  unfolding visit_load
  visit_load-AreLegal true next r p = (inl refl, tt)
  visit_load-AreLegal false next r p = elim (Bool-cases (t.address_space p.ty == host_space t)) [
    | inr device ↦ rw device (inr device, tt)
    | inl host ↦
        let ds = data_bits t r.ty in
        let ci : Value T = record { name = next + 1; ty = t.int_n ds } in
        elim (Bool-cases (t.same r.ty (t.int_n ds))) [
          | inl same ↦ rw (host, same) (tt, (tt, tt))
          | inr differs ↦
              rw (host, differs)
                (Ensures-bind (IsLegal false) _ (convert_loaded t r ci) _
                  (convert_loaded-IsLegal false r ci) λ cti legal. (tt, (tt, (legal, tt))))
        ]
  ]

  visit_store-AreLegal :
      (own : Bool) (next : ℕ) (p v : Value T) → GivesLegal own (visit_store t next p v)
  unfolding visit_store
  visit_store-AreLegal own next p v = elim (Bool-cases (t.address_space p.ty == host_space t)) [
    | inr device ↦ rw device (device, tt)
    | inl host ↦
        let ds = data_bits t v.ty in
        let svi : Value T = record { name = next + 1; ty = t.int_n ds } in
        elim (Bool-cases (t.same v.ty (t.int_n ds))) [
          | inl same ↦ rw (host, same) (tt, (tt, tt))
          | inr differs ↦
              rw (host, differs)
                (Ensures-bind (IsLegal own) _ (convert_stored t svi v) _
                  (convert_stored-IsLegal own svi v) λ cast legal. (tt, (legal, (tt, tt))))
        ]
  ]

  visit_cast-AreLegal :
      (own : Bool) (next : ℕ) (r p : Value T) → GivesLegal own (visit_addr_space_cast t next r p)
  unfolding visit_addr_space_cast
  visit_cast-AreLegal own next r p =
      elim (Bool-cases (is_crossing t (t.address_space p.ty) (t.address_space r.ty))) [
        | inl crossing ↦ rw crossing (tt, (tt, tt))
        | inr inside ↦
            rw inside
              (is_crossing-IsWithin t (t.address_space p.ty) (t.address_space r.ty) inside, tt)
      ]

  visit-AreLegal :
      (own : Bool) (next : ℕ) (i : Inst T) → IsExpanded i → GivesLegal own (visit t own next i)
  unfolding visit
  visit-AreLegal own next (load r p) expanded = visit_load-AreLegal own next r p
  visit-AreLegal own next (store p v) expanded = visit_store-AreLegal own next p v
  visit-AreLegal own next (addr_space_cast r p) expanded = visit_cast-AreLegal own next r p
  visit-AreLegal own next (ptr_to_int r p) expanded = (tt, tt)
  visit-AreLegal own next (int_to_ptr r v) expanded = (tt, tt)
  visit-AreLegal own next (bit_cast r v) expanded = (tt, tt)
  visit-AreLegal own next (gep e r p i) expanded = (tt, tt)
  visit-AreLegal own next (call r f vs) expanded = (tt, tt)
  visit-AreLegal own next (mem_intrinsic k d v m) expanded = (expanded, tt)
  visit-AreLegal own next ret_void expanded = (tt, tt)
  visit-AreLegal own next (other o r vs) expanded = (tt, tt)

  visit_all-AreLegal :
      (own : Bool) (next : ℕ) (is : List (Inst T))
      → AreExpanded is
      → Ensures (AreLegal own) (visit_all t own next is)
  unfolding visit_all
  visit_all-AreLegal own next [] expanded = tt
  visit_all-AreLegal own next (i ∷ is) (first, expanded) =
      Ensures-bind (λ (c : List (Inst T) × ℕ). AreLegal own c.0) _ (visit t own next i) _
        (visit-AreLegal own next i first)
        λ c here.
          Ensures-bind (AreLegal own) _ (visit_all t own c.1 is) _
            (visit_all-AreLegal own c.1 is expanded)
            λ rest there. append-AreLegal own c.0 rest here there

  visit_function-IsLegal :
      (f : Function T)
      → AreExpanded f.body
      → Ensures (λ (g : Function T). AreLegal (is_support g.name) g.body) (visit_function t f)
  unfolding visit_function
  visit_function-IsLegal f expanded =
      Ensures-bind (AreLegal (is_support f.name)) _ (visit_all t (is_support f.name) f.next f.body)
        _ (visit_all-AreLegal (is_support f.name) f.next f.body expanded) λ body legal. legal

  -- The expansions of LLVM have no memory intrinsic on the host's memory left.
  abbrev pub Expands : Expand T → Type 0
  Expands expand = (k : MemKind) (d s n : Value T) (next : ℕ) → AreExpanded (expand k d s n next).0

  pub handled-AreAllLegal :
      (fs : List (Function T)) → AreAllLegal fs → AreAllLegal (map (handle_function t) fs)
  unfolding handle_function
  handled-AreAllLegal [] h = tt
  handled-AreAllLegal (f ∷ fs) (first, h) = (first, handled-AreAllLegal fs h)

module _ {T : Type 0} (t : Types T) (expand : Expand T) (expands : Expands t expand) where
  expanded :
      (next : ℕ) (is : List (Inst T)) → AreExpanded t (expand_mem_intrinsic_uses t expand next is).0
  unfolding expand_mem_intrinsic_uses
  expanded next [] = tt
  expanded next (mem_intrinsic k d s n ∷ is) = elim (Bool-cases (is_device_only t k d s)) [
    | inl own ↦ rw own (is_device_only-IsOwnIntrinsic t k d s own, expanded next is)
    | inr host ↦ rw host (
        append-AreExpanded t (expand k d s n next).0 _ (expands k d s n next)
          (expanded (expand k d s n next).1 is))
  ]
  expanded next (load r p ∷ is) = (tt, expanded next is)
  expanded next (store p v ∷ is) = (tt, expanded next is)
  expanded next (addr_space_cast r p ∷ is) = (tt, expanded next is)
  expanded next (ptr_to_int r p ∷ is) = (tt, expanded next is)
  expanded next (int_to_ptr r v ∷ is) = (tt, expanded next is)
  expanded next (bit_cast r v ∷ is) = (tt, expanded next is)
  expanded next (gep e r p i ∷ is) = (tt, expanded next is)
  expanded next (call r f vs ∷ is) = (tt, expanded next is)
  expanded next (ret_void ∷ is) = (tt, expanded next is)
  expanded next (other o r vs ∷ is) = (tt, expanded next is)

  pub visited-AreAllLegal :
      (fs : List (Function T))
      → Ensures (AreAllLegal t) (map_some (visit_function t) (map (expand_function t expand) fs))
  unfolding expand_function
  visited-AreAllLegal [] = tt
  visited-AreAllLegal (f ∷ fs) =
      let g = expand_function t expand f in
      Ensures-bind (λ (h : Function T). AreLegal t (is_support h.name) h.body) _
        (visit_function t g) _ (visit_function-IsLegal t g (expanded f.next f.body))
        λ h legal.
          Ensures-bind (AreAllLegal t) _
            (map_some (visit_function t) (map (expand_function t expand) fs)) _
            (visited-AreAllLegal fs) λ hs all. (legal, all)
