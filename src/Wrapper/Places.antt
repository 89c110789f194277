-- ===== src/Wrapper/Places.antt =====
-- Lists of functions by their places.
use hero_tools.Prelude.{
  ℕ, zero, suc, ◌<◌, ◌≡◌, ◌≢◌, refl, ap, some, List, [], ◌∷◌, ◌++◌, arith, length, get_elem?,
}
use hero_tools.Wrapper.{set_at}

module _ {ℓ} {A : Type ℓ} where
  pub length-set_at : (k : ℕ) (y : A) (xs : List A) → length (set_at k y xs) ≡ length xs
  length-set_at k y [] = refl
  length-set_at zero y (x ∷ xs) = refl
  length-set_at (suc k) y (x ∷ xs) = ap suc (length-set_at k y xs)

  pub get_elem?-set_at :
      (k : ℕ) (y : A) (xs : List A) → k < length xs → get_elem? (set_at k y xs) k ≡ some y
  get_elem?-set_at k y [] lo = absurd (omega arith)
  get_elem?-set_at zero y (x ∷ xs) lo = refl
  get_elem?-set_at (suc k) y (x ∷ xs) lo = get_elem?-set_at k y xs (omega arith)

  pub get_elem?-set_at_other :
      (k i : ℕ) (y : A) (xs : List A) → i ≢ k → get_elem? (set_at k y xs) i ≡ get_elem? xs i
  get_elem?-set_at_other k i y [] other = refl
  get_elem?-set_at_other zero zero y (x ∷ xs) other = absurd (other refl)
  get_elem?-set_at_other zero (suc i) y (x ∷ xs) other = refl
  get_elem?-set_at_other (suc k) zero y (x ∷ xs) other = refl
  get_elem?-set_at_other (suc k) (suc i) y (x ∷ xs) other =
      get_elem?-set_at_other k i y xs (omega arith)

  pub get_elem?-append :
      (xs ys : List A) (i : ℕ) → i < length xs → get_elem? (xs ++ ys) i ≡ get_elem? xs i
  get_elem?-append [] ys i lo = absurd (omega arith)
  get_elem?-append (x ∷ xs) ys zero lo = refl
  get_elem?-append (x ∷ xs) ys (suc i) lo = get_elem?-append xs ys i (omega arith)

  pub get_elem?-append_last :
      (xs : List A) (y : A) → get_elem? (xs ++ (y ∷ [])) (length xs) ≡ some y
  get_elem?-append_last [] y = refl
  get_elem?-append_last (x ∷ xs) y = get_elem?-append_last xs y

  pub get_elem?-some : (xs : List A) (i : ℕ) (y : A) → get_elem? xs i ≡ some y → i < length xs
  get_elem?-some [] i y e = absurd (cc)
  get_elem?-some (x ∷ xs) zero y e = omega arith
  get_elem?-some (x ∷ xs) (suc i) y e = omega (arith, get_elem?-some xs i y e)
