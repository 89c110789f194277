-- ===== src/Matvec/Result.antt =====
-- The result of `matvec`, from its operands in the memory.
use mathlib.Core.Path.{subst}
use native.Mathlib.Nat.{mul_comm}
use hero_tools.Prelude.{
  ℕ, suc, ◌+◌, ◌*◌, ◌≤◌, ◌<◌, ◌≡◌, ◌≢◌, refl, sym, ap, some, [], ◌∷◌, ◌++◌, arith,
}
use hero_tools.Prelude.Int.{pos}
use hero_tools.Matvec.Dma.{Machine, Device, Transfer, to_x, to_rows, land_all, wait_all}
use hero_tools.Matvec.{Args, prepare, device_matvec, matvec, max_elem}
use hero_tools.Matvec.Laws.{IsLocal, AreLaidOut, weight, result, IsKept}
use hero_tools.Matvec.Cells.{cell_below, first_address}
use hero_tools.Matvec.Rounds.{IsReady, rounds-written}

module _ {D : Type 0} (m : Machine D) (a : Args) (static : (i : ℕ) → m.core_idx i ≡ i)
    (local : IsLocal m.fdotp_32b) (laid : AreLaidOut a) where
  first_row :
      (s : Device D) (i j : ℕ)
      → i < 2
      → 0 + i < a.d
      → j < a.n
      → (wait_all (record (prepare m a s) {
        pending =
            record { target = to_x; source = a.x_p; floats = a.n }
            ∷ record { target = to_rows 0; source = a.w_p; floats = a.n * 2 }
            ∷ [];
      })).rows
          0
          (i * a.n + j)
        ≡ weight m a s.mem (0 + i) j
  unfolding prepare
  first_row s i j two in_d lo = ground (
    arith,
    mul_comm i a.n,
    cell_below a.n 2 i j two lo,
    ap s.mem (first_address a.w_p a.n a.d i j laid.w_fits in_d lo),
  )

  prepare-IsReady :
      (s : Device D) → s.pending ≡ [] → IsReady m a s.mem 0 0 (wait_all (prepare m a s))
  unfolding prepare
  prepare-IsReady s idle =
      let x_t : Transfer = record { target = to_x; source = a.x_p; floats = a.n } in
      let w_t : Transfer = record { target = to_rows 0; source = a.w_p; floats = a.n * 2 } in
      let p = prepare m a s in
      subst (IsReady m a s.mem 0 0)
        (sym
          (ap (λ q. record (land_all ((q ++ (x_t ∷ [])) ++ (w_t ∷ [])) p) { pending = [] }) idle))
        (record {
          settled = refl;
          has_input = λ j lo. ground (arith, laid.x_fits);
          first = λ j in_d lo. first_row s 0 j (omega arith) in_d lo;
          second = λ j in_d lo. first_row s 1 j (omega arith) in_d lo;
          kept = λ q apart. refl;
          written = λ r lo in_d. absurd (omega arith);
        })

  -- `matvec` returns 0 with every component of the result in its place, the kernel's value on the
  -- vector and on the row of the matrix as they lay in the memory, and no other cell changed,
  -- whatever the buffers hold while a transfer is under way. The matrix has one row or more and
  -- two rows at most for every round of fuel but one, its width passes the test of the size, no
  -- pointer is NULL, nothing is under way before, the operands and the result do not wrap and the
  -- result lies apart, core `i` runs the iteration `i`, and the kernel reads no more than the
  -- width.
  pub matvec-product :
      (s : Device D) (fuel : ℕ)
      → a.d ≤ 2 * fuel
      → a.n * 9 ≤ max_elem
      → s.pending ≡ []
      → a.n ≢ 0
      → a.d ≢ 0
      → a.xout_p ≢ 0
      → a.x_p ≢ 0
      → a.w_p ≢ 0
      → (s' : Device D) × (matvec m a (suc fuel) s ≡ some (pos 0, s'))
        × ((r : ℕ) → r < a.d → s'.mem (a.xout_p + 4 * r) ≡ result m a s.mem r)
        × IsKept m a s.mem s'
  unfolding matvec device_matvec
  matvec-product s fuel enough small idle n0 d0 o0 x0 w0 =
      let (s', e, written, kept) =
        rounds-written m a s.mem static local laid fuel 0 0 (prepare m a s) (omega arith)
          (prepare-IsReady s idle) in
      (s', ground (arith, e), λ r in_d. written r in_d in_d, kept)
