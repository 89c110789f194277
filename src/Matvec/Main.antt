-- ===== src/Matvec/Main.antt =====
-- apps/omp/basic/matvec/main.c: the program that lets the device multiply a matrix and a vector, multiplies
-- them on the host too, and compares. The addresses are what `hero_dev_l3_malloc` gives; the host's pointers
-- lead to the same cells as the physical addresses. What `malloc` gives holds anything at first. The
-- timestamps, and what is printed but for the rows that differ, are left out.
pub mod Laws
mod Tests
use hero_tools.Prelude.{
  ℕ, zero, suc, ◌+◌, ◌*◌, ◌%◌, ◌^◌, Bool, Option, some, List, [], ◌∷◌, ◌==◌, if◌then◌else◌,
}
use hero_tools.Prelude.Int.{ℤ}
use hero_tools.Prelude.Partial.{◌>>=◌}
use hero_tools.Fdotp.{Scalar}
use hero_tools.Matvec.{Args, matvec}
use hero_tools.Matvec.Dma.{Machine, Device}

-- The matrix C, the vector D and the result E.
pub record Buffers : Type 0 where
  pub c_phys : ℕ
  pub d_phys : ℕ
  pub e_phys : ℕ

-- What the program has found at its end: the result of `matvec`, the device, the host's result, and the rows
-- that it prints.
pub record Outcome (D : Type 0) : Type 0 where
  pub ret : ℤ
  pub device : Device D
  pub e_test : ℕ → D
  pub nopes : List ℕ

-- The program's numbers: the operations, their comparison, and 1 and 0 converted.
pub record Numbers (D : Type 0) : Type 0 where
  pub scalar : Scalar D
  pub equal : D → D → Bool
  pub one : D

-- The arguments of `matvec`, which are 32-bit.
abbrev pub args_of : Buffers → (width height : ℕ) → Args
args_of b width height = record {
  n = width;
  d = height;
  xout_p = b.e_phys % 2 ^ 32;
  x_p = b.d_phys % 2 ^ 32;
  w_p = b.c_phys % 2 ^ 32;
}

module _ {D : Type 0} where
  -- A float stored through a host's pointer.
  abbrev pub store_float : (p k : ℕ) → D → (ℕ → D) → ℕ → D
  store_float p k x mem q = if q == p + 4 * k then x else mem q

  -- "for (int i = ...; i < ...; i++) array[i] = value": the rounds left, and `i`.
  unfoldable pub set_cells : (value : ℕ → D) → ℕ → (i : ℕ) → (ℕ → D) → ℕ → D
  set_cells value zero i array = array
  set_cells value (suc n) i array =
      set_cells value n (i + 1) (λ k. if k == i then value i else array k)

module _ {D : Type 0} (m : Machine D) (num : Numbers D) where
  -- The loops over the matrix: the rounds left, and `j`; the rounds left, and `i`.
  unfoldable pub fill_row : (c width i : ℕ) → ℕ → (j : ℕ) → (ℕ → D) → ℕ → D
  fill_row c width i zero j mem = mem
  fill_row c width i (suc n) j mem =
      fill_row c width i n (j + 1) (store_float c (i * width + j) (m.of_int (i * width + j)) mem)

  unfoldable pub fill_matrix : (c width : ℕ) → ℕ → (i : ℕ) → (ℕ → D) → ℕ → D
  fill_matrix c width zero i mem = mem
  fill_matrix c width (suc n) i mem = fill_matrix c width n (i + 1) (fill_row c width i width 0 mem)

  unfoldable pub fill_vector : (d : ℕ) → ℕ → (j : ℕ) → (ℕ → D) → ℕ → D
  fill_vector d zero j mem = mem
  fill_vector d (suc n) j mem =
      fill_vector d n (j + 1) (store_float d j (if j == 0 then num.one else num.scalar.zero) mem)

  -- A row on the host: the rounds left, `j` and `val`.
  unfoldable pub host_row : (c_test d_test : ℕ → D) → (width i : ℕ) → ℕ → (j : ℕ) → D → D
  host_row c_test d_test width i zero j val = val
  host_row c_test d_test width i (suc n) j val =
      host_row c_test d_test width i n (j + 1)
        (num.scalar.add val (num.scalar.mul (c_test (i * width + j)) (d_test j)))

  -- The rows that differ: the rounds left, and `i`.
  unfoldable pub verify : (e_test : ℕ → D) → (e : ℕ) → (ℕ → D) → ℕ → (i : ℕ) → List ℕ
  verify e_test e mem zero i = []
  verify e_test e mem (suc n) i =
      let rest = verify e_test e mem n (i + 1) in
      if num.equal (e_test i) (mem (e + 4 * i)) then rest else i ∷ rest

  -- `main`, with the fuel of `matvec` and what the host's arrays hold before.
  unfoldable pub main_matvec :
      (fuel : ℕ) → Buffers → (width height : ℕ) → (c0 d0 e0 : ℕ → D) → Device D → Option (Outcome D)
  main_matvec fuel b width height c0 d0 e0 s =
      let mem = fill_vector b.d_phys width 0 (fill_matrix b.c_phys width height 0 s.mem) in
      let c_test = set_cells (λ i. mem (b.c_phys + 4 * i)) (height * width) 0 c0 in
      let d_test = set_cells (λ i. mem (b.d_phys + 4 * i)) width 0 d0 in
      matvec m (args_of b width height) fuel (record s { mem = mem }) >>= λ (ret, s1).
      let e_test =
        set_cells (λ i. host_row c_test d_test width i width 0 num.scalar.zero) height 0 e0 in
      some (record {
        ret = ret;
        device = s1;
        e_test = e_test;
        nopes = verify e_test b.e_phys s1.mem height 0;
      })
