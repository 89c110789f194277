-- ===== src/Fdotp.antt =====
-- apps/omp/kernels/fdotp.h: the dot products `fdotp_naive_32b`, `fdotp_rvv_32b` and `fdotp_simd_32b`, the
-- assembly of the latter two read as the operations on vectors and on pairs that it names. The numbers are a parameter (`Scalar`), and so is
-- what the vector unit decides (`VectorUnit`).
pub mod Sum
pub mod Laws
pub mod Simd
pub mod Fixture
mod Tests
use hero_tools.Prelude.{
  ℕ, zero, suc, ◌+◌, ◌-◌, ◌%◌, ◌^◌, Bool, Option, none, some, ltb, ◌==◌, if◌then◌else◌,
}

pub record Scalar (D : Type 0) : Type 0 where
  pub zero : D
  pub add : D → D → D
  pub mul : D → D → D

pub record VectorUnit (D : Type 0) : Type 0 where
  -- The length that "vsetvli" grants to a request.
  pub vsetvli : ℕ → ℕ
  -- What becomes of an element behind the length.
  pub tail : D → D

-- "blt": a comparison of 32-bit words as signed numbers.
abbrev pub signed_less : (a b : ℕ) → Bool
signed_less a b = ltb ((a + 2 ^ 31) % 2 ^ 32) ((b + 2 ^ 31) % 2 ^ 32)

module _ {D : Type 0} (f : Scalar D) where
  -- The loop of `fdotp_naive_32b`: the rounds left, `i` and `value`.
  unfoldable pub naive_loop : (a b : ℕ → D) → ℕ → (i : ℕ) → D → D
  naive_loop a b zero i value = value
  naive_loop a b (suc n) i value = naive_loop a b n (i + 1) (f.add value (f.mul (a i) (b i)))

  unfoldable pub fdotp_naive_32b : (a b : ℕ → D) → ℕ → D
  fdotp_naive_32b a b k = naive_loop a b k 0 f.zero

  -- "vfredusum" from zero: the order of the sum is the unit's own.
  abbrev pub lane_sum : (v : ℕ → D) → ℕ → D
  lane_sum v zero = f.zero
  lane_sum v (suc n) = f.add (lane_sum v n) (v n)

  -- "vfmul" or "vfmacc" on the elements from `offset` on.
  unfoldable pub accumulate :
      VectorUnit D → (a b : ℕ → D) → (first : Bool) → (offset vl : ℕ) → (ℕ → D) → ℕ → D
  accumulate u a b first offset vl v24 j =
      let product = f.mul (a (offset + j)) (b (offset + j)) in
      if ltb j vl then (if first then product else f.add product (v24 j)) else u.tail (v24 j)

  -- The loop of `fdotp_rvv_32b`: the fuel, `avl` and how far the pointers are. `none` is no fuel left.
  unfoldable pub strips :
      VectorUnit D → (a b : ℕ → D) → (orig_avl : ℕ) → ℕ → (avl offset : ℕ) → (ℕ → D) → Option D
  strips u a b orig_avl zero avl offset v24 = none
  strips u a b orig_avl (suc fuel) avl offset v24 =
      let vl = u.vsetvli avl in
      let v = accumulate u a b (avl == orig_avl) offset vl v24 in
      let left = (avl + 2 ^ 32 - vl) % 2 ^ 32 in
      let rest = strips u a b orig_avl fuel left (offset + vl) v in
      if ltb 0 left then rest else some (lane_sum v vl)

  -- The vector register holds anything at the start.
  unfoldable pub fdotp_rvv_32b :
      VectorUnit D → (a b : ℕ → D) → (avl fuel : ℕ) → (v24 : ℕ → D) → Option D
  fdotp_rvv_32b u a b avl fuel v24 = strips u a b avl fuel avl 0 v24

  -- The loop of `fdotp_simd_32b`, which stores its result behind `c`: the fuel, `t0`, how far the pointers are, and the two lanes of ft4. The
  -- sum of the lanes is added to that of ft3, which is zero.
  unfoldable pub pairs : (a b : ℕ → D) → (k : ℕ) → ℕ → (t0 offset : ℕ) → (low high : D) → Option D
  pairs a b k zero t0 offset low high = none
  pairs a b k (suc fuel) t0 offset low high =
      let low' = f.add low (f.mul (a offset) (b offset)) in
      let high' = f.add high (f.mul (a (offset + 1)) (b (offset + 1))) in
      let t0' = (t0 + 2) % 2 ^ 32 in
      let rest = pairs a b k fuel t0' (offset + 2) low' high' in
      if signed_less t0' k then rest else some (f.add (f.add f.zero low') high')

  unfoldable pub fdotp_simd_32b : (a b : ℕ → D) → (k fuel : ℕ) → Option D
  fdotp_simd_32b a b k fuel = pairs a b k fuel 2 2 (f.mul (a 0) (b 0)) (f.mul (a 1) (b 1))
