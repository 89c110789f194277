-- ===== src/Fdotp/Sum.antt =====
-- Sums of products, and the loop of the scalar kernel as one.
use native.Mathlib.Nat.{suc-add, zero-add, add_comm}
use hero_tools.Prelude.{ℕ, zero, suc, ◌+◌, ◌<◌, ◌≡◌, refl, sym, ◌∙◌, ap, ap₂, arith}
use hero_tools.Fdotp.{Scalar, naive_loop, lane_sum}

-- Sums do not depend on their order.
pub record IsExact {D : Type 0} (f : Scalar D) : Type 0 where
  pub zero_add : (x : D) → f.add f.zero x ≡ x
  pub add_comm : (x y : D) → f.add x y ≡ f.add y x
  pub add_assoc : (x y z : D) → f.add (f.add x y) z ≡ f.add x (f.add y z)

module _ {D : Type 0} (f : Scalar D) where
  pub lane_sum_ext :
      (v w : ℕ → D) (n : ℕ) → ((j : ℕ) → j < n → v j ≡ w j) → lane_sum f v n ≡ lane_sum f w n
  lane_sum_ext v w zero same = refl
  lane_sum_ext v w (suc n) same =
      ap₂ f.add (lane_sum_ext v w n λ j lo. same j (omega arith)) (same n (omega arith))

  pub naive_loop-lane_sum :
      (a b : ℕ → D) (n i : ℕ) (value : D)
      → value ≡ lane_sum f (λ j. f.mul (a j) (b j)) i
      → naive_loop f a b n i value ≡ lane_sum f (λ j. f.mul (a j) (b j)) (n + i)
  unfolding naive_loop
  naive_loop-lane_sum a b zero i value e =
      e ∙ ap (lane_sum f (λ j. f.mul (a j) (b j))) (sym (zero-add i))
  naive_loop-lane_sum a b (suc n) i value e =
      let products : ℕ → D = λ j. f.mul (a j) (b j) in
      let i_suc : suc i ≡ i + 1 = omega arith in
      let n_suc : n + (i + 1) ≡ suc n + i = omega arith in
      naive_loop-lane_sum a b n (i + 1) (f.add value (products i))
        (ap (λ x. f.add x (products i)) e ∙ ap (lane_sum f products) i_suc)
      ∙ ap (lane_sum f products) n_suc

module _ {D : Type 0} (f : Scalar D) (exact : IsExact f) where
  pub swap : (p q r s : D) → f.add (f.add p q) (f.add r s) ≡ f.add (f.add p r) (f.add q s)
  swap p q r s =
      exact.add_assoc p q (f.add r s)
      ∙ ap (f.add p) (
          sym (exact.add_assoc q r s)
          ∙ ap (λ x. f.add x s) (exact.add_comm q r)
          ∙ exact.add_assoc r q s)
      ∙ sym (exact.add_assoc p r (f.add q s))

  swap_last : (p q r : D) → f.add (f.add p q) r ≡ f.add (f.add p r) q
  swap_last p q r =
      exact.add_assoc p q r ∙ ap (f.add p) (exact.add_comm q r) ∙ sym (exact.add_assoc p r q)

  pub lane_sum-add :
      (v w : ℕ → D) (n : ℕ)
      → lane_sum f (λ j. f.add (v j) (w j)) n ≡ f.add (lane_sum f v n) (lane_sum f w n)
  lane_sum-add v w zero = sym (exact.zero_add f.zero)
  lane_sum-add v w (suc n) =
      ap (λ x. f.add x (f.add (v n) (w n))) (lane_sum-add v w n)
      ∙ swap (lane_sum f v n) (lane_sum f w n) (v n) (w n)

  pub lane_sum-shift :
      (p : ℕ → D) (offset n : ℕ)
      → lane_sum f p (n + offset) ≡ f.add (lane_sum f (λ j. p (offset + j)) n) (lane_sum f p offset)
  lane_sum-shift p offset zero =
      ap (lane_sum f p) (zero-add offset) ∙ sym (exact.zero_add (lane_sum f p offset))
  lane_sum-shift p offset (suc n) =
      let shifted = lane_sum f (λ j. p (offset + j)) n in
      ap (lane_sum f p) (suc-add n offset)
      ∙ ap₂ f.add (lane_sum-shift p offset n) (ap p (add_comm n offset))
      ∙ swap_last shifted (lane_sum f p offset) (p (offset + n))
