-- ===== src/Matvec/Main/Laws.antt =====
-- The program finds no row that differs.
use mathlib.Core.Path.{subst}
use mathlib.Core.Option.{some-injective}
use native.Mathlib.Decide.{dec_lt}
use native.Mathlib.Nat.{mul_comm}
use hero_tools.Prelude.{
  ℕ, zero, suc, ◌+◌, ◌*◌, ◌%◌, ◌^◌, ◌≤◌, ◌<◌, ◌≡◌, ◌≢◌, refl, sym, ◌∙◌, ap, ap₂, true, some, [],
  arith, ◌==◌, if◌then◌else◌,
}
use hero_tools.Prelude.Int.{pos}
use hero_tools.Fdotp.{Scalar, VectorUnit, naive_loop, fdotp_naive_32b, fdotp_rvv_32b}
use hero_tools.Fdotp.Sum.{IsExact}
use hero_tools.Fdotp.Laws.{fdotp_rvv-naive}
use hero_tools.Matvec.{max_elem}
use hero_tools.Matvec.Cells.{cell_below}
use hero_tools.Matvec.Dma.{Machine, Device}
use hero_tools.Matvec.Laws.{IsLocal, AreLaidOut, input, weight, result}
use hero_tools.Matvec.Result.{matvec-product}
use hero_tools.Matvec.Main.{
  Buffers, Outcome, Numbers, args_of, set_cells, fill_matrix, fill_vector, host_row, verify,
  main_matvec,
}

module _ {D : Type 0} where
  set_cells-before :
      (value : ℕ → D) (n i : ℕ) (array : ℕ → D) (k : ℕ)
      → k < i
      → set_cells value n i array k ≡ array k
  unfolding set_cells
  set_cells-before value zero i array k lo = refl
  set_cells-before value (suc n) i array k lo =
      set_cells-before value n (i + 1) (λ j. if j == i then value i else array j) k (omega arith)
      ∙ ground arith

  -- What the loop has stored.
  set_cells-at :
      (value : ℕ → D) (n i : ℕ) (array : ℕ → D) (k : ℕ)
      → i ≤ k
      → k < i + n
      → set_cells value n i array k ≡ value k
  unfolding set_cells
  set_cells-at value zero i array k lo hi = absurd (omega arith)
  set_cells-at value (suc n) i array k lo hi = elim (dec_lt i k) [
    | yes later ↦
        set_cells-at value n (i + 1) (λ j. if j == i then value i else array j) k (omega arith)
          (omega arith)
    | no now ↦
        let here : k ≡ i = omega arith in
        set_cells-before value n (i + 1) (λ j. if j == i then value i else array j) k (omega arith)
        ∙ ground (arith, here)
  ]

module _ {D : Type 0} (m : Machine D) (num : Numbers D)
    (commutes : (x y : D) → num.scalar.mul x y ≡ num.scalar.mul y x) where
  -- The host's loop over a row is that of the scalar kernel.
  host_row-naive_loop :
      (c_test d_test x w : ℕ → D) (width i n j : ℕ) (val : D)
      → ((k : ℕ) → k < j + n → c_test (i * width + k) ≡ w k)
      → ((k : ℕ) → k < j + n → d_test k ≡ x k)
      → host_row m num c_test d_test width i n j val ≡ naive_loop num.scalar x w n j val
  unfolding host_row naive_loop
  host_row-naive_loop c_test d_test x w width i zero j val same_w same_x = refl
  host_row-naive_loop c_test d_test x w width i (suc n) j val same_w same_x =
      let product : num.scalar.mul (c_test (i * width + j)) (d_test j)
          ≡ num.scalar.mul (x j) (w j) =
        ap₂ num.scalar.mul (same_w j (omega arith)) (same_x j (omega arith))
        ∙ commutes (w j) (x j) in
      ap (λ p. host_row m num c_test d_test width i n (j + 1) (num.scalar.add val p)) product
      ∙ host_row-naive_loop c_test d_test x w width i n (j + 1) _ (λ k lo. same_w k (omega arith))
          λ k lo. same_x k (omega arith)

  verify-none :
      (e_test : ℕ → D) (e : ℕ) (mem : ℕ → D) (n i : ℕ)
      → ((k : ℕ) → i ≤ k → k < i + n → num.equal (e_test k) (mem (e + 4 * k)) ≡ true)
      → verify m num e_test e mem n i ≡ []
  unfolding verify
  verify-none e_test e mem zero i same = refl
  verify-none e_test e mem (suc n) i same =
      let here = same i (omega arith) (omega arith) in
      rw here (verify-none e_test e mem n (i + 1) λ k lo hi. same k (omega arith) (omega arith))

-- The scalar kernel reads no more than the width.
naive_loop_ext :
    {D : Type 0} (f : Scalar D) (x y v w : ℕ → D) (n i : ℕ) (val : D)
    → ((j : ℕ) → j < i + n → x j ≡ y j)
    → ((j : ℕ) → j < i + n → v j ≡ w j)
    → naive_loop f x v n i val ≡ naive_loop f y w n i val
unfolding naive_loop
naive_loop_ext f x y v w zero i val same_x same_w = refl
naive_loop_ext f x y v w (suc n) i val same_x same_w =
    ap (λ p. naive_loop f x v n (i + 1) (f.add val p))
      (ap₂ f.mul (same_x i (omega arith)) (same_w i (omega arith)))
    ∙ naive_loop_ext f x y v w n (i + 1) _ (λ j lo. same_x j (omega arith))
        λ j lo. same_w j (omega arith)

pub fdotp_naive-IsLocal : {D : Type 0} (f : Scalar D) → IsLocal (fdotp_naive_32b f)
unfolding fdotp_naive_32b
fdotp_naive-IsLocal f x y v w n same_x same_w =
    naive_loop_ext f x y v w n 0 f.zero (λ j lo. same_x j (omega arith))
      λ j lo. same_w j (omega arith)

-- The device computes a row of `width` numbers by the vector kernel, in strips of one length.
pub record HasKernel {D : Type 0} (m : Machine D) (f : Scalar D) (width : ℕ) : Type 0 where
  pub unit : VectorUnit D
  pub vl : ℕ
  pub more_strips : ℕ
  pub fuel : ℕ
  pub register : ℕ → D
  pub positive : 0 < vl
  pub whole : suc more_strips * vl ≡ width
  pub small : width < 2 ^ 32
  pub granted : (i : ℕ) → i ≤ more_strips → unit.vsetvli (suc i * vl) ≡ vl
  pub enough : more_strips < fuel
  pub runs :
      (x w : ℕ → D) → fdotp_rvv_32b f unit x w width fuel register ≡ some (m.fdotp_32b x w width)

module _ {D : Type 0} (m : Machine D) (num : Numbers D) (width : ℕ)
    (kernel : HasKernel m num.scalar width) (exact : IsExact num.scalar) where
  kernel-naive : (x w : ℕ → D) → m.fdotp_32b x w width ≡ fdotp_naive_32b num.scalar x w width
  kernel-naive x w =
      let small : suc kernel.more_strips * kernel.vl < 2 ^ 32 = rw kernel.whole kernel.small in
      let product =
        fdotp_rvv-naive num.scalar exact kernel.unit x w kernel.register kernel.vl
          kernel.more_strips kernel.fuel kernel.positive small kernel.granted kernel.enough in
      some-injective _ _ (
        sym (kernel.runs x w)
        ∙ subst
            (λ n.
              fdotp_rvv_32b num.scalar kernel.unit x w n kernel.fuel kernel.register
              ≡ some (fdotp_naive_32b num.scalar x w n))
            kernel.whole product)

-- Where the program's arrays lie: below 2^32, and not at NULL.
pub record AreBelow (b : Buffers) : Type 0 where
  pub c_small : b.c_phys < 2 ^ 32
  pub d_small : b.d_phys < 2 ^ 32
  pub e_small : b.e_phys < 2 ^ 32
  pub c_there : b.c_phys ≢ 0
  pub d_there : b.d_phys ≢ 0
  pub e_there : b.e_phys ≢ 0

module _ {D : Type 0} (m : Machine D) (num : Numbers D) (b : Buffers) (width height : ℕ)
    (c0 d0 e0 : ℕ → D) (kernel : HasKernel m num.scalar width) (exact : IsExact num.scalar)
    (commutes : (x y : D) → num.scalar.mul x y ≡ num.scalar.mul y x) (below : AreBelow b) where
  -- The host's arrays, when the memory has been copied.
  abbrev c_copy : (ℕ → D) → ℕ → D
  c_copy mem = set_cells (λ i. mem (b.c_phys + 4 * i)) (height * width) 0 c0

  abbrev d_copy : (ℕ → D) → ℕ → D
  d_copy mem = set_cells (λ i. mem (b.d_phys + 4 * i)) width 0 d0

  abbrev e_host : (ℕ → D) → ℕ → D
  e_host mem =
      set_cells (λ i. host_row m num (c_copy mem) (d_copy mem) width i width 0 num.scalar.zero)
        height 0 e0

  c_copied :
      (mem : ℕ → D) (r j : ℕ)
      → r < height
      → j < width
      → c_copy mem (r * width + j) ≡ weight m (args_of b width height) mem r j
  c_copied mem r j in_rows in_row =
      let inside : r * width + j < height * width = omega (
        arith,
        cell_below width height r j in_rows in_row,
        mul_comm r width,
        mul_comm height width,
      ) in
      let cell : b.c_phys + 4 * (r * width + j) ≡ b.c_phys % 2 ^ 32 + 4 * (width * r + j) =
        omega (arith, mul_comm r width, below.c_small) in
      set_cells-at _ (height * width) 0 c0 (r * width + j) (omega arith) (omega arith) ∙ ap mem cell

  d_copied :
      (mem : ℕ → D) (j : ℕ) → j < width → d_copy mem j ≡ input m (args_of b width height) mem j
  d_copied mem j in_row =
      let cell : b.d_phys + 4 * j ≡ b.d_phys % 2 ^ 32 + 4 * j = omega (arith, below.d_small) in
      set_cells-at _ width 0 d0 j (omega arith) (omega arith) ∙ ap mem cell

  -- A row of the host's result is what the device computes.
  host-result :
      (mem : ℕ → D) (r : ℕ) → r < height → e_host mem r ≡ result m (args_of b width height) mem r
  unfolding fdotp_naive_32b
  host-result mem r in_rows =
      let a = args_of b width height in
      set_cells-at _ height 0 e0 r (omega arith) (omega arith)
      ∙ host_row-naive_loop m num commutes (c_copy mem) (d_copy mem) (input m a mem)
          (weight m a mem r) width r width 0 num.scalar.zero
          (λ k lo. c_copied mem r k in_rows (omega arith)) (λ k lo. d_copied mem k (omega arith))
      ∙ sym (kernel-naive m num width kernel exact (input m a mem) (weight m a mem r))

  -- `main` comes to its end, `matvec` has returned 0, and no row differs, when sums do not depend
  -- on their order, products commute, a number compares equal to itself, and the device's kernel
  -- is the vector kernel in strips of one length. The size passes the test of `matvec`, the
  -- matrix has a row or more and two rows at most for every round of fuel but one, the arrays lie
  -- below 2^32 and not at NULL, do not wrap, and the result lies apart, core `i` runs the
  -- iteration `i`, the kernel reads no more than the width, and no transfer is under way before.
  pub main_matvec-nopes :
      (s : Device D) (fuel : ℕ)
      → ((x : D) → num.equal x x ≡ true)
      → ((i : ℕ) → m.core_idx i ≡ i)
      → IsLocal m.fdotp_32b
      → AreLaidOut (args_of b width height)
      → height ≤ 2 * fuel
      → width * 9 ≤ max_elem
      → s.pending ≡ []
      → width ≢ 0
      → height ≢ 0
      → (o : Outcome D) × (main_matvec m num (suc fuel) b width height c0 d0 e0 s ≡ some o)
        × (o.ret ≡ pos 0)
        × (o.nopes ≡ [])
  unfolding main_matvec
  main_matvec-nopes s fuel same static local laid enough small idle w0 h0 =
      let mem =
        fill_vector m num b.d_phys width 0 (fill_matrix m num b.c_phys width height 0 s.mem) in
      let a = args_of b width height in
      let (s1, returns, rows, kept) =
        matvec-product m a static local laid (record s { mem = mem }) fuel enough small idle w0 h0
          (omega (arith, below.e_small, below.e_there))
          (omega (arith, below.d_small, below.d_there))
          (omega (arith, below.c_small, below.c_there)) in
      let agrees : (r : ℕ) → r < height → e_host mem r ≡ s1.mem (b.e_phys + 4 * r) =
        λ r lo. host-result mem r lo ∙ sym (rows r lo) ∙ ap s1.mem (omega (arith, below.e_small)) in
      (
        record {
          ret = pos 0;
          device = s1;
          e_test = e_host mem;
          nopes = verify m num (e_host mem) b.e_phys s1.mem height 0;
        },
        rw returns refl,
        refl,
        verify-none m num commutes (e_host mem) b.e_phys s1.mem height 0 λ r lo hi.
            ap (λ x. num.equal x (s1.mem (b.e_phys + 4 * r))) (agrees r (omega arith)) ∙ same _,
      )
