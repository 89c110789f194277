-- ===== src/Fdotp/Simd.antt =====
-- The kernel on pairs computes the dot product of the scalar one.
use native.Mathlib.Nat.{add-zero}
use hero_tools.Prelude.{
  ℕ, zero, suc, ◌+◌, ◌*◌, ◌%◌, ◌^◌, ◌≤◌, ◌<◌, ◌≡◌, refl, sym, ◌∙◌, ap, true, false, some, arith,
}
use hero_tools.Fdotp.{Scalar, fdotp_naive_32b, lane_sum, signed_less, pairs, fdotp_simd_32b}
use hero_tools.Fdotp.Sum.{IsExact, swap, naive_loop-lane_sum}

less : (a b : ℕ) → a < 2 ^ 31 → b < 2 ^ 31 → a < b → signed_less a b ≡ true
less a b small_a small_b lo = ground arith

not_less : (a b : ℕ) → a < 2 ^ 31 → b < 2 ^ 31 → b ≤ a → signed_less a b ≡ false
not_less a b small_a small_b le = ground arith

module _ {D : Type 0} (f : Scalar D) (exact : IsExact f) (a b : ℕ → D) where
  abbrev products : ℕ → D
  products j = f.mul (a j) (b j)

  -- One more pair.
  pair-sum :
      (i : ℕ) (low high : D)
      → f.add low high ≡ lane_sum f products i
      → f.add (f.add low (products i)) (f.add high (products (i + 1))) ≡ lane_sum f products (i + 2)
  pair-sum i low high sum =
      let next : i + 1 ≡ suc i = omega arith in
      let after : suc (suc i) ≡ i + 2 = omega arith in
      swap f exact low (products i) high (products (i + 1))
      ∙ ap (λ x. f.add x (f.add (products i) (products (i + 1)))) sum
      ∙ sym (exact.add_assoc (lane_sum f products i) (products i) (products (i + 1)))
      ∙ ap (λ j. f.add (lane_sum f products (suc i)) (products j)) next
      ∙ ap (lane_sum f products) after

  -- `n` pairs are left behind the next one.
  pairs-sum :
      (k n i fuel : ℕ) (low high : D)
      → i + 2 * n + 2 ≡ k
      → k < 2 ^ 31
      → n < fuel
      → f.add low high ≡ lane_sum f products i
      → pairs f a b k fuel i i low high ≡ some (lane_sum f products k)
  unfolding pairs
  pairs-sum k n i zero low high whole small enough sum = absurd (omega arith)
  pairs-sum k zero i (suc fuel) low high whole small enough sum =
      let t0 : (i + 2) % 2 ^ 32 ≡ i + 2 = omega arith in
      let last : signed_less (i + 2) k ≡ false =
        not_less (i + 2) k (omega arith) small (omega arith) in
      let end : i + 2 ≡ k = omega arith in
      let low' = f.add low (products i) in
      rw (t0, last)
        (ap some (
          ap (λ x. f.add x (f.add high (products (i + 1)))) (exact.zero_add low')
          ∙ pair-sum i low high sum
          ∙ ap (lane_sum f products) end))
  pairs-sum k (suc n) i (suc fuel) low high whole small enough sum =
      let t0 : (i + 2) % 2 ^ 32 ≡ i + 2 = omega arith in
      let more : signed_less (i + 2) k ≡ true = less (i + 2) k (omega arith) small (omega arith) in
      rw (t0, more)
        (pairs-sum k n (i + 2) fuel (f.add low (products i)) (f.add high (products (i + 1)))
          (omega arith) small (omega arith) (pair-sum i low high sum))

  -- `fdotp_simd_32b` stores the value that `fdotp_naive_32b` computes, on vectors of an even
  -- length from 4 on and below 2^31, if sums do not depend on their order. There is fuel for
  -- every pair but the first.
  pub fdotp_simd-naive :
      (n fuel : ℕ)
      → 2 * n + 4 < 2 ^ 31
      → n < fuel
      → fdotp_simd_32b f a b (2 * n + 4) fuel ≡ some (fdotp_naive_32b f a b (2 * n + 4))
  unfolding fdotp_simd_32b fdotp_naive_32b
  fdotp_simd-naive n fuel small enough =
      let first : f.add (products 0) (products 1) ≡ lane_sum f products 2 =
        ap (λ x. f.add x (products 1)) (sym (exact.zero_add (products 0))) in
      pairs-sum (2 * n + 4) n 2 fuel (products 0) (products 1) (omega arith) small enough first
      ∙ ap some (
          ap (lane_sum f products) (sym (add-zero (2 * n + 4)))
          ∙ sym (naive_loop-lane_sum f a b (2 * n + 4) 0 f.zero refl))
