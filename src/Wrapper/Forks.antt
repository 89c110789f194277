-- ===== src/Wrapper/Forks.antt =====
-- The calls of `__kmpc_fork_call` in a module when its outlined functions have been wrapped.
use Prim.Native.String.{◌++◌ as append}
use mathlib.Core.Option.{some-injective}
use native.Mathlib.Decide.{dec_lt}
use hero_tools.Prelude.{
  ℕ, ◌+◌, ◌≤◌, ◌<◌, ◌≡◌, refl, sym, ◌∙◌, ap, inl, inr, Option, some, none, List, [], ◌∷◌, ◌++◌,
  arith, length, get_elem?, length-append, Option-cases,
}
use hero_tools.Ir.{Types}
use hero_tools.Wrapper.{
  Fn, Module, wrapper_prefix, get_function, build_outlined, wrap_fork, wrap_forks,
  wrap_omp_outlined_funcs,
}
use hero_tools.Wrapper.Places.{get_elem?-append, get_elem?-append_last, get_elem?-some}
use hero_tools.Wrapper.Named.{
  get_function-found, AreForks, AreNamed, IsGrown, IsForked, AreForked, same-wrapper,
}

module _ {T : Type 0} (t : Types T) where
  record IsStep (fs0 fs fs1 : List (Fn T)) (c c1 : Option ℕ) : Type 0 where
    grown : IsGrown t fs0 fs1
    extends : (i : ℕ) → i < length fs → get_elem? fs1 i ≡ get_elem? fs i
    long : length fs ≤ length fs1
    forked : IsForked t fs0 fs1 c c1

  -- A wrapper is appended.
  append-IsStep :
      (fs0 fs : List (Fn T)) (place : ℕ) (kernel : Fn T)
      → IsGrown t fs0 fs
      → get_elem? fs0 place ≡ some kernel
      → IsStep fs0 fs (fs ++ (build_outlined t place kernel ∷ [])) (some place) (some (length fs))
  append-IsStep fs0 fs place kernel grown there =
      let wrapper = build_outlined t place kernel in
      let longer : length (fs ++ (wrapper ∷ [])) ≡ length fs + 1 =
        length-append fs (wrapper ∷ []) in
      let last : get_elem? (fs ++ (wrapper ∷ [])) (length fs) ≡ some wrapper =
        get_elem?-append_last fs wrapper in
      record {
        grown = record {
          kept = λ i lo.
              get_elem?-append fs (wrapper ∷ []) i (omega (arith, grown.longer)) ∙ grown.kept i lo;
          longer = omega (arith, grown.longer, longer);
          built = λ i f le e. elim (dec_lt i (length fs)) [
            | yes old ↦ grown.built i f le (sym (get_elem?-append fs (wrapper ∷ []) i old) ∙ e)
            | no new ↦
                let inside = get_elem?-some (fs ++ (wrapper ∷ [])) i f e in
                let at : i ≡ length fs = omega (arith, inside, longer) in
                (
                  place,
                  kernel,
                  there,
                  some-injective _ _ (sym e ∙ ap (get_elem? (fs ++ (wrapper ∷ []))) at ∙ last),
                )
          ];
        };
        extends = λ i lo. get_elem?-append fs (wrapper ∷ []) i lo;
        long = omega (arith, longer);
        forked = (
          (λ e. absurd (cc)),
          (λ p k e e'.
              let places : place ≡ p = some-injective _ _ e in
              let kernels : kernel ≡ k =
                some-injective _ _ (sym there ∙ ap (get_elem? fs0) places ∙ e') in
              (
                length fs,
                refl,
                last
                    ∙ ap (λ x. some (build_outlined t x kernel)) places
                    ∙ ap (λ x. some (build_outlined t p x)) kernels,
              )),
        );
      }

  -- Nothing is appended.
  still-IsStep :
      (fs0 fs : List (Fn T)) (c c1 : Option ℕ)
      → IsGrown t fs0 fs
      → IsForked t fs0 fs c c1
      → IsStep fs0 fs fs c c1
  still-IsStep fs0 fs c c1 grown forked = record {
    grown = grown;
    extends = λ i lo. refl;
    long = omega arith;
    forked = forked;
  }

  wrap_fork-IsStep :
      (fs0 fs : List (Fn T)) (c : Option ℕ)
      → AreNamed t fs0
      → IsGrown t fs0 fs
      → ((place : ℕ) → c ≡ some place → place < length fs0)
      → let s = wrap_fork t c fs in IsStep fs0 fs s.1 c s.0
  unfolding wrap_fork
  wrap_fork-IsStep fs0 fs none names grown inside =
      still-IsStep fs0 fs none none grown ((λ e. refl), (λ p k e e'. absurd (cc)))
  wrap_fork-IsStep fs0 fs (some place) names grown inside =
      let kept = grown.kept place (inside place refl) in
      elim (Option-cases (get_elem? fs place)) [
        | inl missing ↦
            rw (wrap_fork, missing)
              (still-IsStep fs0 fs (some place) (some place) grown (
                (λ e. absurd (cc)),
                (λ p k e e'.
                    let places : place ≡ p = some-injective _ _ e in
                    let there : get_elem? fs0 place ≡ some k = ap (get_elem? fs0) places ∙ e' in
                    absurd (cc)),
              ))
        | inr (kernel, found) ↦
            let there : get_elem? fs0 place ≡ some kernel = sym kept ∙ found in
            elim (Option-cases (get_function t (append wrapper_prefix kernel.name) fs)) [
              | inl unbuilt ↦
                  rw (wrap_fork, found, unbuilt) (append-IsStep fs0 fs place kernel grown there)
              | inr (k, built) ↦
                  let (f, at, named) =
                    get_function-found t (append wrapper_prefix kernel.name) fs k built in
                  let same = same-wrapper t fs0 fs place k kernel f names grown there at named in
                  rw (wrap_fork, found, built)
                    (still-IsStep fs0 fs (some place) (some k) grown (
                      (λ e. absurd (cc)),
                      (λ p k' e e'.
                          let places : place ≡ p = some-injective _ _ e in
                          let kernels : kernel ≡ k' =
                            some-injective _ _ (sym there ∙ ap (get_elem? fs0) places ∙ e') in
                          (
                            k,
                            refl,
                            at
                                ∙ ap some same
                                ∙ ap (λ x. some (build_outlined t x kernel)) places
                                ∙ ap (λ x. some (build_outlined t p x)) kernels,
                          )),
                    ))
            ]
      ]

  -- The wrappers stay when more are appended.
  IsForked-later :
      (fs0 fs1 fs2 : List (Fn T)) (c c1 : Option ℕ)
      → ((i : ℕ) → i < length fs1 → get_elem? fs2 i ≡ get_elem? fs1 i)
      → IsForked t fs0 fs1 c c1
      → IsForked t fs0 fs2 c c1
  IsForked-later fs0 fs1 fs2 c c1 extends (none_stays, wrapped) = (
    none_stays,
    (λ place kernel e there.
        let (k, e', at) = wrapped place kernel e there in
        (k, e', extends k (get_elem?-some fs1 k _ at) ∙ at)),
  )

  -- What a whole list of forks does.
  record IsRun (fs0 fs last : List (Fn T)) (cs cs' : List (Option ℕ)) : Type 0 where
    extends : (i : ℕ) → i < length fs → get_elem? last i ≡ get_elem? fs i
    forked : AreForked t fs0 last cs cs'

  wrap_forks-IsRun :
      (fs0 fs : List (Fn T)) (cs : List (Option ℕ))
      → AreNamed t fs0
      → IsGrown t fs0 fs
      → AreForks t (length fs0) cs
      → let s = wrap_forks t cs fs in IsRun fs0 fs s.1 cs s.0
  unfolding wrap_forks
  wrap_forks-IsRun fs0 fs [] names grown inside = record { extends = λ i lo. refl; forked = tt }
  wrap_forks-IsRun fs0 fs (c ∷ cs) names grown (first, inside) =
      let fs1 : List (Fn T) = (wrap_fork t c fs).1 in
      let h = wrap_fork-IsStep fs0 fs c names grown first in
      let k = wrap_forks-IsRun fs0 fs1 cs names h.grown inside in
      record {
        extends = λ i lo. k.extends i (omega (arith, lo, h.long)) ∙ h.extends i lo;
        forked = (
          IsForked-later fs0 fs1 (wrap_forks t cs fs1).1 c (wrap_fork t c fs).0 k.extends h.forked,
          k.forked,
        );
      }

  -- `wrapOmpOutlinedFuncs` makes every fork of a function call the wrapper that is built for that
  -- function, leaves the forks without a function as they are, and changes no function of the
  -- module. Every fork's function is in the module, no two functions have the same name, and none
  -- has the name of a wrapper.
  pub wrap_omp_outlined_funcs-AreForked :
      (m : Module T)
      → AreNamed t m.functions
      → AreForks t (length m.functions) m.forks
      → AreForked t m.functions
          (wrap_omp_outlined_funcs t m).functions
          m.forks
          (wrap_omp_outlined_funcs t m).forks
        × ((i : ℕ)
            → i < length m.functions
            → get_elem? (wrap_omp_outlined_funcs t m).functions i ≡ get_elem? m.functions i)
  unfolding wrap_omp_outlined_funcs
  wrap_omp_outlined_funcs-AreForked m names inside =
      let fs = m.functions in
      let start : IsGrown t fs fs = record {
        kept = λ i lo. refl;
        longer = omega arith;
        built = λ i f le e. absurd (omega (arith, get_elem?-some fs i f e));
      } in
      let run = wrap_forks-IsRun fs fs m.forks names start inside in (run.forked, run.extends)
