-- ===== src/Matvec/Rounds.antt =====
-- The rounds of `matvec`: each finds its rows in the buffer, and fetches the next.
use mathlib.Core.Path.{subst}
use native.Mathlib.Decide.{dec_lt}
use hero_tools.Prelude.{
  ℕ, zero, suc, ◌+◌, ◌*◌, ◌%◌, ◌≤◌, ◌<◌, ◌≡◌, refl, sym, ◌∙◌, ap, some, List, [], ◌∷◌, arith,
}
use hero_tools.Matvec.Dma.{
  Machine, Device, Transfer, Target, to_x, to_rows, fill, land, land_all, wait_all, address,
}
use hero_tools.Matvec.{cores, Args, row, fetch, round, rounds}
use hero_tools.Matvec.Laws.{
  IsLocal, AreLaidOut, row-keeps, weight, IsKept, AreWritten, HasInput, HasRow, row-IsKept,
  row-AreWritten, wait_all-none, wait_all-one, next_rows, fetch-more, fetch-last,
}
use hero_tools.Matvec.Cells.{cell_below, cell_address, cell_fetched}

module _ {D : Type 0} (m : Machine D) (a : Args) (mem0 : ℕ → D) where
  -- Before a round, when its transfers have been waited for.
  pub record IsReady (base it : ℕ) (t : Device D) : Type 0 where
    pub settled : t.pending ≡ []
    pub has_input : HasInput m a mem0 t
    pub first : HasRow m a mem0 base it 0 t
    pub second : HasRow m a mem0 base it 1 t
    pub kept : IsKept m a mem0 t
    pub written : AreWritten m a mem0 base t

  -- A round, behind the start of its transfer: the rows at hand are worked on.
  record IsWorked (base : ℕ) (f u : Device D) : Type 0 where
    pending : u.pending ≡ f.pending
    rows : u.rows ≡ f.rows
    pub has_input : HasInput m a mem0 u
    pub kept : IsKept m a mem0 u
    pub written : AreWritten m a mem0 (base + 2) u

module _ {D : Type 0} (m : Machine D) (a : Args) (mem0 : ℕ → D)
    (static : (i : ℕ) → m.core_idx i ≡ i) (local : IsLocal m.fdotp_32b) (laid : AreLaidOut a) where
  work :
      (base it : ℕ) (f : Device D)
      → HasInput m a mem0 f
      → HasRow m a mem0 base it 0 f
      → HasRow m a mem0 base it 1 f
      → IsKept m a mem0 f
      → AreWritten m a mem0 base f
      → IsWorked m a mem0 base f (row m a base it 1 (row m a base it 0 f))
  work base it f has_x has0 has1 kept written =
      let s = row m a base it 0 f in
      let (x0, rows0, pending0) = row-keeps m a base it 0 f in
      let (x1, rows1, pending1) = row-keeps m a base it 1 s in
      let has_x0 : HasInput m a mem0 s = λ j lo. ap (λ g. g j) x0 ∙ has_x j lo in
      let has_row1 : HasRow m a mem0 base it 1 s =
        λ j in_d lo. ap (λ g. g (it % 2) (1 * a.n + j)) rows0 ∙ has1 j in_d lo in
      let written0 =
        row-AreWritten m a mem0 static local laid base it 0 f has_x has0
          (λ r lo in_d. written r (omega arith) in_d) in
      let written1 =
        row-AreWritten m a mem0 static local laid base it 1 s has_x0 has_row1
          (λ r lo in_d. written0 r (omega arith) in_d) in
      record {
        pending = pending1 ∙ pending0;
        rows = rows1 ∙ rows0;
        has_input = λ j lo. ap (λ g. g j) x1 ∙ has_x0 j lo;
        kept =
            row-IsKept m a mem0 static local laid base it 1 s
              (row-IsKept m a mem0 static local laid base it 0 f kept);
        written = λ r lo in_d. written1 r (omega arith) in_d;
      }

  -- The source of the next rows is their place in the matrix, and no store of a result changed it.
  source_cell :
      (base it i j : ℕ) (u : Device D)
      → i < 2
      → base + 2 + i < a.d
      → j < a.n
      → IsKept m a mem0 u
      → u.mem (address (next_rows m a base it).source (i * a.n + j))
        ≡ weight m a mem0 (base + 2 + i) j
  source_cell base it i j u two in_d lo kept =
      ap u.mem (cell_address a.w_p a.n a.d (base + cores) i j laid.w_fits in_d lo)
      ∙ kept _ (ground (arith, cell_below a.n a.d (base + 2 + i) j in_d lo, laid.w_apart))

  -- The buffer of the next round holds its rows once they are waited for.
  landed-HasRow :
      (base it i : ℕ) (u : Device D)
      → i < 2
      → IsKept m a mem0 u
      → HasRow m a mem0 (base + 2) (it + 1) i (land (next_rows m a base it) u)
  landed-HasRow base it i u two kept j in_d lo =
      ground (
        arith,
        source_cell base it i j u two in_d lo kept,
        cell_fetched a.n a.d base i j two in_d lo,
      )

  round-IsReady :
      (base it : ℕ) (s : Device D)
      → IsReady m a mem0 base it (wait_all s)
      → IsReady m a mem0 (base + 2) (it + 1) (wait_all (round m a base it s))
  unfolding round
  round-IsReady base it s r = elim (dec_lt (base + 2) a.d) [
    | yes more ↦
        let t = wait_all s in
        let f = fetch m a base it t in
        let u = row m a base it 1 (row m a base it 0 f) in
        let (mem, x, fetching, rows) = fetch-more m a base it t more r.settled in
        let w =
          work base it f (λ j lo. ap (λ g. g j) x ∙ r.has_input j lo)
            (λ j in_d lo. rows (0 * a.n + j) ∙ r.first j in_d lo)
            (λ j in_d lo. rows (1 * a.n + j) ∙ r.second j in_d lo)
            (λ p apart. ap (λ g. g p) mem ∙ r.kept p apart)
            λ k lo in_d. ap (λ g. g (a.xout_p + 4 * k)) mem ∙ r.written k lo in_d in
        subst (IsReady m a mem0 (base + 2) (it + 1))
          (sym (wait_all-one u (next_rows m a base it) (w.pending ∙ fetching)))
          (record {
            settled = refl;
            has_input = w.has_input;
            first = landed-HasRow base it 0 u (omega arith) w.kept;
            second = landed-HasRow base it 1 u (omega arith) w.kept;
            kept = w.kept;
            written = w.written;
          })
    | no last ↦
        let t = wait_all s in
        let u = row m a base it 1 (row m a base it 0 t) in
        let w = work base it t r.has_input r.first r.second r.kept r.written in
        subst
          (λ f.
            IsReady m a mem0 (base + 2) (it + 1)
              (wait_all (row m a base it 1 (row m a base it 0 f))))
          (sym (fetch-last m a base it t (omega arith)))
          (subst (IsReady m a mem0 (base + 2) (it + 1))
            (sym (wait_all-none u (w.pending ∙ r.settled)))
            (record {
              settled = refl;
              has_input = w.has_input;
              first = λ j in_d lo. absurd (omega arith);
              second = λ j in_d lo. absurd (omega arith);
              kept = w.kept;
              written = w.written;
            }))
  ]

  fill-mem : (g : Target) (n : ℕ) (f : ℕ → D) (s : Device D) → (fill g n f s).mem ≡ s.mem
  fill-mem to_x n f s = refl
  fill-mem (to_rows k) n f s = refl

  -- Waiting for transfers changes no cell of the memory.
  land_all-mem : (ts : List Transfer) (s : Device D) → (land_all ts s).mem ≡ s.mem
  land_all-mem [] s = refl
  land_all-mem (t ∷ ts) s =
      land_all-mem ts (land t s) ∙ fill-mem t.target t.floats (λ j. s.mem (address t.source j)) s

  -- What is ready behind the last row is the result, also before the last wait.
  ready-written :
      (base it : ℕ) (s : Device D)
      → a.d ≤ base
      → IsReady m a mem0 base it (wait_all s)
      → AreWritten m a mem0 a.d s × IsKept m a mem0 s
  ready-written base it s past r =
      let same = land_all-mem s.pending s in
      (
        λ k lo in_d. ap (λ g. g (a.xout_p + 4 * k)) (sym same) ∙ r.written k (omega arith) in_d,
        λ p apart. ap (λ g. g p) (sym same) ∙ r.kept p apart,
      )

  pub rounds-written :
      (fuel base it : ℕ) (s : Device D)
      → a.d ≤ base + 2 * fuel
      → IsReady m a mem0 base it (wait_all s)
      → (s' : Device D) × (rounds m a (suc fuel) base it s ≡ some s')
        × AreWritten m a mem0 a.d s'
        × IsKept m a mem0 s'
  unfolding rounds
  rounds-written zero base it s enough r =
      let (written, kept) = ready-written base it s (omega arith) r in
      (s, ground arith, written, kept)
  rounds-written (suc fuel) base it s enough r = elim (dec_lt base a.d) [
    | yes more ↦
        let (s', e, written, kept) =
          rounds-written fuel (base + 2) (it + 1) (round m a base it s) (omega arith)
            (round-IsReady base it s r) in
        (s', ground (arith, e), written, kept)
    | no done ↦
        let (written, kept) = ready-written base it s (omega arith) r in
        (s, ground arith, written, kept)
  ]
