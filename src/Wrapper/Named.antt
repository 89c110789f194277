-- ===== src/Wrapper/Named.antt =====
-- The functions of a module with wrappers of outlined functions, and their names.
use Prim.Native.String.{String, ◌++◌ as append}
use mathlib.Core.Option.{some-injective}
use native.Mathlib.Decide.{dec_lt}
use text.Mathlib.Text.{◌==◌ as str_eq}
use text.Mathlib.TextEquality.{eq_iff}
use text.Mathlib.TextLemmas.{append_cancel_left}
use hero_tools.Prelude.{
  ℕ, suc, ◌+◌, ◌≤◌, ◌<◌, ◌≡◌, ◌≢◌, sym, ◌∙◌, ap, inl, inr, Option, some, none, List, [], ◌∷◌, arith,
  length, get_elem?, Bool-cases, Option-cases,
}
use hero_tools.Ir.{Types}
use hero_tools.Wrapper.{Fn, wrapper_prefix, get_function, build_outlined}

-- The place of a function, and that it has the name asked for.
pub get_function-found :
    {T : Type 0} (t : Types T) (name : String) (fs : List (Fn T)) (k : ℕ)
    → get_function t name fs ≡ some k
    → (f : Fn T) × (get_elem? fs k ≡ some f) × (f.name ≡ name)
get_function-found t name [] k e = absurd (cc)
get_function-found t name (f ∷ fs) k e = elim (Bool-cases (str_eq f.name name)) [
  | inl same ↦
      let first : k ≡ 0 = sym (some-injective _ _ (rw same at e)) in
      (f, ap (get_elem? (f ∷ fs)) first, (eq_iff f.name name).0 same)
  | inr differs ↦ elim (Option-cases (get_function t name fs)) [
    | inl missing ↦ absurd (ground (arith, e, differs, missing))
    | inr (j, found) ↦
        let next : k ≡ j + 1 = ground (arith, e, differs, found) in
        let (g, there, named) = get_function-found t name fs j found in
        let at_k : k ≡ suc j = omega (arith, next) in
        (g, ap (get_elem? (f ∷ fs)) at_k ∙ there, named)
  ]
]

module _ {T : Type 0} (t : Types T) where
  -- Every fork calls a function of the module, no two functions have the same name, and none has the
  -- name of a wrapper.
  abbrev pub AreForks : (functions : ℕ) → List (Option ℕ) → Type 0
  AreForks functions [] = Unit
  AreForks functions (c ∷ cs) =
      ((place : ℕ) → c ≡ some place → place < functions) × AreForks functions cs

  pub record AreNamed (fs : List (Fn T)) : Type 0 where
    pub distinct :
        (i j : ℕ) (f g : Fn T)
        → get_elem? fs i ≡ some f
        → get_elem? fs j ≡ some g
        → f.name ≡ g.name
        → i ≡ j
    pub plain :
        (i j : ℕ) (f g : Fn T)
        → get_elem? fs i ≡ some f
        → get_elem? fs j ≡ some g
        → f.name ≢ append wrapper_prefix g.name

  -- The functions `fs` have become `fs'`: what is new are wrappers.
  pub record IsGrown (fs fs' : List (Fn T)) : Type 0 where
    pub kept : (i : ℕ) → i < length fs → get_elem? fs' i ≡ get_elem? fs i
    pub longer : length fs ≤ length fs'
    pub built :
        (i : ℕ) (f : Fn T)
        → length fs ≤ i
        → get_elem? fs' i ≡ some f
        → (place : ℕ) × (kernel : Fn T) × (get_elem? fs place ≡ some kernel)
          × (f ≡ build_outlined t place kernel)

  -- What becomes of the function of a fork.
  abbrev pub IsForked : (fs fs' : List (Fn T)) → (c c' : Option ℕ) → Type 0
  IsForked fs fs' c c' =
      (c ≡ none → c' ≡ none)
      × ((place : ℕ) (kernel : Fn T)
          → c ≡ some place
          → get_elem? fs place ≡ some kernel
          → (wrapper : ℕ) × (c' ≡ some wrapper)
            × (get_elem? fs' wrapper ≡ some (build_outlined t place kernel)))

  abbrev pub AreForked : (fs fs' : List (Fn T)) → (cs cs' : List (Option ℕ)) → Type 0
  AreForked fs fs' [] [] = Unit
  AreForked fs fs' (c ∷ cs) (c' ∷ cs') = IsForked fs fs' c c' × AreForked fs fs' cs cs'
  AreForked fs fs' _ _ = ⊥

  -- A wrapper that is there is that of the kernel asked for.
  pub same-wrapper :
      (fs fs' : List (Fn T)) (place k : ℕ) (kernel f : Fn T)
      → AreNamed fs
      → IsGrown fs fs'
      → get_elem? fs place ≡ some kernel
      → get_elem? fs' k ≡ some f
      → f.name ≡ append wrapper_prefix kernel.name
      → f ≡ build_outlined t place kernel
  unfolding build_outlined
  same-wrapper fs fs' place k kernel f names grown there found named = elim (dec_lt k (length fs)) [
    | yes old ↦ absurd (names.plain k place f kernel (sym (grown.kept k old) ∙ found) there named)
    | no new ↦
        let (place2, kernel2, there2, e) = grown.built k f (omega arith) found in
        let name2 : append wrapper_prefix kernel2.name ≡ append wrapper_prefix kernel.name =
          sym (ap (λ x. x.name) e) ∙ named in
        let places : place2 ≡ place =
          names.distinct place2 place kernel2 kernel there2 there
            (append_cancel_left wrapper_prefix kernel2.name kernel.name name2) in
        let kernels : kernel2 ≡ kernel =
          some-injective _ _ (sym there2 ∙ ap (get_elem? fs) places ∙ there) in
        e ∙ ap (λ p. build_outlined t p kernel2) places ∙ ap (build_outlined t place) kernels
  ]
