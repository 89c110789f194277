-- ===== src/Fdotp/Laws.antt =====
-- The vector kernel computes the dot product of the scalar one.
use native.Mathlib.Nat.{suc-mul, zero-add, add-zero, add_comm}
use hero_tools.Prelude.{
  ℕ, zero, suc, ◌+◌, ◌-◌, ◌*◌, ◌%◌, ◌^◌, ◌≤◌, ◌<◌, ◌≡◌, refl, sym, ◌∙◌, ap, Bool, true, false, some,
  arith, ltb, ◌==◌, ==_refl, if◌then◌else◌,
}
use hero_tools.Fdotp.{
  Scalar, VectorUnit, fdotp_naive_32b, lane_sum, accumulate, strips, fdotp_rvv_32b,
}
use hero_tools.Fdotp.Sum.{IsExact, lane_sum_ext, naive_loop-lane_sum, lane_sum-add, lane_sum-shift}

module _ {D : Type 0} (f : Scalar D) (exact : IsExact f) where
  -- A strip adds its products to the lanes.
  accumulate-first :
      (u : VectorUnit D) (a b v : ℕ → D) (offset n : ℕ)
      → lane_sum f (accumulate f u a b true offset n v) n
        ≡ lane_sum f (λ j. f.mul (a (offset + j)) (b (offset + j))) n
  unfolding accumulate
  accumulate-first u a b v offset n = lane_sum_ext f _ _ n λ j lo. ground arith

  accumulate-next :
      (u : VectorUnit D) (a b v : ℕ → D) (offset n : ℕ)
      → lane_sum f (accumulate f u a b false offset n v) n
        ≡ f.add (lane_sum f (λ j. f.mul (a (offset + j)) (b (offset + j))) n) (lane_sum f v n)
  unfolding accumulate
  accumulate-next u a b v offset n =
      lane_sum_ext f _ (λ j. f.add (f.mul (a (offset + j)) (b (offset + j))) (v j)) n
        (λ j lo. ground arith)
      ∙ lane_sum-add f exact (λ j. f.mul (a (offset + j)) (b (offset + j))) v n

  strips-step :
      (u : VectorUnit D) (a b v : ℕ → D) (orig vl fuel avl offset : ℕ) (first : Bool)
      → u.vsetvli avl ≡ vl
      → (avl == orig) ≡ first
      → strips f u a b orig (suc fuel) avl offset v ≡ (
          let v' = accumulate f u a b first offset vl v in
          let left = (avl + 2 ^ 32 - vl) % 2 ^ 32 in
          if ltb 0 left
          then strips f u a b orig fuel left (offset + vl) v'
          else some (lane_sum f v' vl))
  unfolding strips
  strips-step u a b v orig vl fuel avl offset first granted compared = rw (granted, compared) refl

  next_sum :
      (u : VectorUnit D) (a b v : ℕ → D) (offset vl : ℕ)
      → lane_sum f v vl ≡ lane_sum f (λ j. f.mul (a j) (b j)) offset
      → lane_sum f (accumulate f u a b false offset vl v) vl
        ≡ lane_sum f (λ j. f.mul (a j) (b j)) (vl + offset)
  next_sum u a b v offset vl sum =
      let products : ℕ → D = λ j. f.mul (a j) (b j) in
      accumulate-next u a b v offset vl
      ∙ ap (f.add (lane_sum f (λ j. products (offset + j)) vl)) sum
      ∙ sym (lane_sum-shift f exact products offset vl)

  -- The strips behind the first: `k` and one are left, the lanes have the sum up to `offset`.
  strips-next :
      (u : VectorUnit D) (a b v : ℕ → D) (orig vl k offset fuel : ℕ)
      → 0 < vl
      → orig < 2 ^ 32
      → ((i : ℕ) → i ≤ k → u.vsetvli (suc i * vl) ≡ vl)
      → suc k * vl + offset ≡ orig
      → 0 < offset
      → k < fuel
      → lane_sum f v vl ≡ lane_sum f (λ j. f.mul (a j) (b j)) offset
      → strips f u a b orig fuel (suc k * vl) offset v
        ≡ some (lane_sum f (λ j. f.mul (a j) (b j)) orig)
  strips-next u a b v orig vl k offset zero pos small even at later enough sum =
      absurd (omega arith)
  strips-next u a b v orig vl zero offset (suc fuel) pos small even at later enough sum =
      let step =
        strips-step u a b v orig vl fuel (1 * vl) offset false (even 0 (omega arith))
          (ground arith) in
      let whole : vl + offset ≡ orig = omega arith in
      let summed =
        next_sum u a b v offset vl sum ∙ ap (lane_sum f (λ j. f.mul (a j) (b j))) whole in
      ground (arith, step, summed)
  strips-next u a b v orig vl (suc k) offset (suc fuel) pos small even at later enough sum =
      let v' = accumulate f u a b false offset vl v in
      let step =
        strips-step u a b v orig vl fuel (suc (suc k) * vl) offset false
          (even (suc k) (omega arith)) (ground (arith, suc-mul (suc k) vl)) in
      let summed =
        next_sum u a b v offset vl sum
        ∙ ap (lane_sum f (λ j. f.mul (a j) (b j))) (add_comm vl offset) in
      let left : (suc (suc k) * vl + 2 ^ 32 - vl) % 2 ^ 32 ≡ suc k * vl =
        omega (arith, suc-mul (suc k) vl) in
      let more : ltb 0 (suc k * vl) ≡ true = ground (arith, suc-mul k vl) in
      let rest =
        strips-next u a b v' orig vl k (offset + vl) fuel pos small (λ i lo. even i (omega arith))
          (omega (arith, suc-mul (suc k) vl)) (omega arith) (omega arith) summed in
      step ∙ rw (left, more) rest

  first_sum :
      (u : VectorUnit D) (a b v : ℕ → D) (vl : ℕ)
      → lane_sum f (accumulate f u a b true 0 vl v) vl ≡ lane_sum f (λ j. f.mul (a j) (b j)) vl
  first_sum u a b v vl =
      accumulate-first u a b v 0 vl
      ∙ lane_sum_ext f _ (λ j. f.mul (a j) (b j)) vl
          λ j lo. ap (λ i. f.mul (a i) (b i)) (zero-add j)

  strips-sum :
      (u : VectorUnit D) (a b v : ℕ → D) (vl k fuel : ℕ)
      → 0 < vl
      → suc k * vl < 2 ^ 32
      → ((i : ℕ) → i ≤ k → u.vsetvli (suc i * vl) ≡ vl)
      → k < fuel
      → strips f u a b (suc k * vl) fuel (suc k * vl) 0 v
        ≡ some (lane_sum f (λ j. f.mul (a j) (b j)) (suc k * vl))
  strips-sum u a b v vl k zero pos small even enough = absurd (omega arith)
  strips-sum u a b v vl zero (suc fuel) pos small even enough =
      let step =
        strips-step u a b v (1 * vl) vl fuel (1 * vl) 0 true (even 0 (omega arith))
          (==_refl (1 * vl)) in
      let whole : vl ≡ 1 * vl = omega arith in
      let summed = first_sum u a b v vl ∙ ap (lane_sum f (λ j. f.mul (a j) (b j))) whole in
      ground (arith, step, summed)
  strips-sum u a b v vl (suc k) (suc fuel) pos small even enough =
      let orig = suc (suc k) * vl in
      let v' = accumulate f u a b true 0 vl v in
      let step =
        strips-step u a b v orig vl fuel orig 0 true (even (suc k) (omega arith)) (==_refl orig) in
      let left : (orig + 2 ^ 32 - vl) % 2 ^ 32 ≡ suc k * vl = omega (arith, suc-mul (suc k) vl) in
      let more : ltb 0 (suc k * vl) ≡ true = ground (arith, suc-mul k vl) in
      let summed =
        first_sum u a b v vl ∙ ap (lane_sum f (λ j. f.mul (a j) (b j))) (sym (zero-add vl)) in
      let rest =
        strips-next u a b v' orig vl k (0 + vl) fuel pos small (λ i lo. even i (omega arith))
          (omega (arith, suc-mul (suc k) vl)) (omega arith) (omega arith) summed in
      step ∙ rw (left, more) rest

  -- `fdotp_rvv_32b` returns the value of `fdotp_naive_32b`, whatever the vector register held
  -- before and becomes of the elements behind the length, if sums do not depend on their order
  -- and every strip gets the same length. The length of the vectors is positive and below 2^32,
  -- and there is fuel for every strip.
  pub fdotp_rvv-naive :
      (u : VectorUnit D) (a b v24 : ℕ → D) (vl k fuel : ℕ)
      → 0 < vl
      → suc k * vl < 2 ^ 32
      → ((i : ℕ) → i ≤ k → u.vsetvli (suc i * vl) ≡ vl)
      → k < fuel
      → fdotp_rvv_32b f u a b (suc k * vl) fuel v24 ≡ some (fdotp_naive_32b f a b (suc k * vl))
  unfolding fdotp_rvv_32b fdotp_naive_32b
  fdotp_rvv-naive u a b v24 vl k fuel pos small even enough =
      strips-sum u a b v24 vl k fuel pos small even enough
      ∙ ap (λ x. some x)
          (ap (lane_sum f (λ j. f.mul (a j) (b j))) (sym (add-zero (suc k * vl)))
            ∙ sym (naive_loop-lane_sum f a b (suc k * vl) 0 f.zero refl))
