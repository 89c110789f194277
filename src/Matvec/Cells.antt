-- ===== src/Matvec/Cells.antt =====
-- Where the components of the matrix lie, by the program's own arithmetic.
use native.Mathlib.Nat.{mul-add, mul-suc, mul-le-mul_left, mul_comm, mul_assoc, zero-add}
use hero_tools.Prelude.{ℕ, ◌+◌, ◌-◌, ◌*◌, ◌%◌, ◌^◌, ◌≤◌, ◌<◌, ◌≡◌, ◌∙◌, ap, arith}
use hero_tools.Matvec.Dma.{float_bytes, address}
use hero_tools.Matvec.{cores, min_of}

-- A component of a row lies in the matrix.
pub cell_below : (n d r j : ℕ) → r < d → j < n → n * r + j < n * d
cell_below n d r j lo hi = omega (arith, mul-suc n r, mul-le-mul_left n lo)

-- The bytes of a row, as the program multiplies.
pub row_bytes : (n r : ℕ) → n * float_bytes * r ≡ 4 * (n * r)
row_bytes n r = ap (λ k. k * r) (mul_comm n 4) ∙ mul_assoc 4 n r

-- Where a component of a later row is fetched from.
pub cell_address :
    (w n d r i j : ℕ)
    → w + 4 * (n * d) ≤ 2 ^ 32
    → r + i < d
    → j < n
    → address ((w + n * float_bytes * r) % 2 ^ 32) (i * n + j) ≡ w + 4 * (n * (r + i) + j)
cell_address w n d r i j fits in_d lo =
    omega (arith, row_bytes n r, mul-add n r i, mul_comm i n, cell_below n d (r + i) j in_d lo)

-- Where a component of the first rows is fetched from.
pub first_address :
    (w n d i j : ℕ)
    → w + 4 * (n * d) ≤ 2 ^ 32
    → 0 + i < d
    → j < n
    → address w (i * n + j) ≡ w + 4 * (n * (0 + i) + j)
first_address w n d i j fits in_d lo =
    omega (arith, ap (λ k. n * k) (zero-add i), mul_comm i n, cell_below n d i j (omega arith) lo)

-- The cells fetched reach to the row.
pub cell_fetched :
    (n d base i j : ℕ)
    → i < 2
    → base + 2 + i < d
    → j < n
    → i * n + j < n * min_of (d - base - cores) cores
cell_fetched n d base i j two in_d lo = cells (min_of (d - base - cores) cores) (ground arith)
  where
    cells : (k : ℕ) → i < k → i * n + j < n * k
    cells k hi = omega (arith, mul_comm i n, cell_below n k i j hi lo)
