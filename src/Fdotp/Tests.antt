-- ===== src/Fdotp/Tests.antt =====
-- Six products in strips of two, and five, of which the last strip has one.
use hero_tools.Prelude.{◌+◌, ◌≡◌, refl, some, arith}
use native.Mathlib.Nat.{suc-mul}
use hero_tools.Fdotp.{
  fdotp_simd_32b, pairs, fdotp_rvv_32b, fdotp_naive_32b, strips, accumulate, naive_loop,
}
use hero_tools.Fdotp.Fixture.{naturals, naturals-IsExact, unit}
use hero_tools.Fdotp.Simd.{fdotp_simd-naive}
use hero_tools.Fdotp.Laws.{fdotp_rvv-naive}

fdotp_rvv-naive_example :
    fdotp_rvv_32b naturals unit (λ i. i) (λ i. i + 1) 6 3 (λ j. 99)
    ≡ some (fdotp_naive_32b naturals (λ i. i) (λ i. i + 1) 6)
fdotp_rvv-naive_example =
    fdotp_rvv-naive naturals naturals-IsExact unit (λ i. i) (λ i. i + 1) (λ j. 99) 2 2 3
      (omega arith) (omega arith) (λ i lo. omega (arith, suc-mul i 2)) (omega arith)

-- A shorter last strip loses the other lanes: 0 + 6 + 20 of 40.
uneven_run : fdotp_rvv_32b naturals unit (λ i. i) (λ i. i + 1) 5 3 (λ j. 99) ≡ some 26
unfolding fdotp_rvv_32b strips accumulate
uneven_run = refl

whole_run : fdotp_naive_32b naturals (λ i. i) (λ i. i + 1) 5 ≡ 40
unfolding fdotp_naive_32b naive_loop
whole_run = refl

fdotp_simd-naive_example :
    fdotp_simd_32b naturals (λ i. i) (λ i. i + 1) 8 3
    ≡ some (fdotp_naive_32b naturals (λ i. i) (λ i. i + 1) 8)
fdotp_simd-naive_example =
    fdotp_simd-naive naturals naturals-IsExact (λ i. i) (λ i. i + 1) 2 3 (omega arith) (omega arith)

-- Three products are taken for four, 0 + 2 + 6 + 12.
odd_run : fdotp_simd_32b naturals (λ i. i) (λ i. i + 1) 3 3 ≡ some 20
unfolding fdotp_simd_32b pairs
odd_run = refl
