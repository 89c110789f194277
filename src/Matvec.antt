-- ===== src/Matvec.antt =====
-- apps/omp/basic/matvec/matvec.h for the Spatz cluster: `matvec`, whose device part fetches the rows of a
-- matrix by DMA into two buffers in turn, while the cores work on the other. Addresses are 32-bit, those of
-- the device; a cell of the memory is a float. Numbers and the kernel `fdotp_32b` are parameters.
-- The buffers that `snrt_l1alloc` gives are taken to lie apart, and the timestamps and counters of cycles
-- are left out.
pub mod Dma
pub mod Laws
pub mod Cells
pub mod Rounds
pub mod Result
pub mod Main
mod Tests
use hero_tools.Prelude.{
  ℕ, zero, suc, ◌+◌, ◌-◌, ◌*◌, ◌/◌, ◌%◌, ◌^◌, Bool, true, false, ◌||◌, Option, none, some, List, [],
  ◌∷◌, ◌++◌, ltb, leb, ◌==◌, if◌then◌else◌,
}
use hero_tools.Prelude.Int.{ℤ, pos, negsuc}
use hero_tools.Prelude.Partial.{◌>>=◌}
use Dma.{Machine, Device, Transfer, Target, to_x, to_rows, start, wait_all, float_bytes, address}

abbrev pub cores : ℕ
cores = 2

-- MIN and MAX_ELEM
abbrev pub min_of : ℕ → ℕ → ℕ
min_of a b = if ltb a b then a else b

abbrev pub max_elem : ℕ
max_elem = (128 - 32) * 1024 / 4

-- What is mapped to the device.
pub record Args : Type 0 where
  pub n : ℕ
  pub d : ℕ
  pub xout_p : ℕ
  pub x_p : ℕ
  pub w_p : ℕ

module _ {D : Type 0} (m : Machine D) (a : Args) where
  -- The core's iteration `i` of the parallel loop.
  unfoldable pub row : (base it i : ℕ) → Device D → Device D
  row base it i s =
      let weights : ℕ → D = λ j. s.rows (it % 2) (m.core_idx i * a.n + j) in
      let at = address a.xout_p (i + base) in
      if leb a.d (base + i)
      then s
      else record s { mem = λ p. if p == at then m.fdotp_32b s.x weights a.n else s.mem p }

  -- The next rows are fetched.
  unfoldable pub fetch : (base it : ℕ) → Device D → Device D
  fetch base it s =
      let rows_left = a.d - base in
      if ltb 2 rows_left
      then start m
          (record {
            target = to_rows ((it + 1) % 2);
            source = (a.w_p + a.n * float_bytes * (base + cores)) % 2 ^ 32;
            floats = a.n * min_of (rows_left - cores) cores;
          })
          s
      else s

  unfoldable pub round : (base it : ℕ) → Device D → Device D
  round base it s = row base it 1 (row base it 0 (fetch base it (wait_all s)))

  -- The loop: the fuel, `I`, `it`. `none` is no fuel left.
  unfoldable pub rounds : ℕ → (base it : ℕ) → Device D → Option (Device D)
  rounds zero base it s = none
  rounds (suc fuel) base it s =
      let rest = rounds fuel (base + cores) (it + 1) (round base it s) in
      if ltb base a.d then rest else some s

  -- The buffers before the loop, and the two transfers.
  unfoldable pub prepare : Device D → Device D
  prepare s =
      let s1 : Device D = record s {
        rows = λ k j.
            if ltb j a.n then (if k == 1 then m.of_int j else m.of_int (j % 2)) else s.rows k j;
      } in
      let s2 = start m (record { target = to_x; source = a.x_p; floats = a.n }) s1 in
      start m (record { target = to_rows 0; source = a.w_p; floats = a.n * 2 }) s2

  unfoldable pub device_matvec : (fuel : ℕ) → Device D → Option (Device D)
  device_matvec fuel s =
      if a.n == 0 || (a.d == 0 || (a.xout_p == 0 || (a.x_p == 0 || a.w_p == 0)))
      then some s
      else rounds fuel 0 0 (prepare s)

  -- The result, and the device's state.
  unfoldable pub matvec : (fuel : ℕ) → Device D → Option (ℤ × Device D)
  matvec fuel s =
      let offloaded = device_matvec fuel s >>= λ s1. some (pos 0, s1) in
      if ltb max_elem (a.n * 9) then some (negsuc 0, s) else offloaded
