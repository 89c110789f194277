-- ===== src/Matvec/Laws.antt =====
-- What the device part of `matvec` leaves in the memory, whenever the transfers are done.
use native.Mathlib.Decide.{dec_lt}
use hero_tools.Prelude.{
  ℕ, ◌+◌, ◌-◌, ◌*◌, ◌%◌, ◌^◌, ◌≤◌, ◌<◌, ◌≡◌, ◌⊎◌, inl, inr, ◌∙◌, ap, [], ◌∷◌, arith, leb, ◌==◌,
  if◌then◌else◌, Bool-cases,
}
use hero_tools.Matvec.Dma.{
  Machine, Device, Transfer, to_rows, land, land_all, wait_all, float_bytes, address,
}
use hero_tools.Matvec.{cores, min_of, Args, row, fetch}

-- The kernel reads only the first `n` floats of each operand.
abbrev pub IsLocal {ℓ} : {D : Type ℓ} → ((x w : ℕ → D) → ℕ → D) → Type ℓ
IsLocal {D = D} dot =
    (x y v w : ℕ → D) (n : ℕ)
    → ((j : ℕ) → j < n → x j ≡ y j)
    → ((j : ℕ) → j < n → v j ≡ w j)
    → dot x v n ≡ dot y w n

-- A range of bytes has no cell in another.
abbrev pub AreApart : (p bytes q more : ℕ) → Type 0
AreApart p bytes q more = (p + bytes ≤ q) ⊎ (q + more ≤ p)

-- The operands and the result do not wrap, and the result lies apart from the operands.
pub record AreLaidOut (a : Args) : Type 0 where
  pub x_fits : a.x_p + 4 * a.n ≤ 2 ^ 32
  pub w_fits : a.w_p + 4 * (a.n * a.d) ≤ 2 ^ 32
  pub out_fits : a.xout_p + 4 * a.d ≤ 2 ^ 32
  pub x_apart : AreApart a.x_p (4 * a.n) a.xout_p (4 * a.d)
  pub w_apart : AreApart a.w_p (4 * (a.n * a.d)) a.xout_p (4 * a.d)

module _ {D : Type 0} (m : Machine D) (a : Args) where
  pub row-keeps :
      (base it i : ℕ) (s : Device D)
      → let r = row m a base it i s in (r.x ≡ s.x) × (r.rows ≡ s.rows) × (r.pending ≡ s.pending)
  unfolding row
  row-keeps base it i s = elim (Bool-cases (leb a.d (base + i))) [
    | inl past ↦ (ground arith, ground arith, ground arith)
    | inr inside ↦ (ground arith, ground arith, ground arith)
  ]

  row-mem :
      (base it i : ℕ) (s : Device D) (p : ℕ)
      → (row m a base it i s).mem p ≡ (
          if leb a.d (base + i)
          then s.mem p
          else if p == address a.xout_p (i + base)
          then m.fdotp_32b s.x (λ j. s.rows (it % 2) (m.core_idx i * a.n + j)) a.n
          else s.mem p)
  unfolding row
  row-mem base it i s p = ground arith

module _ {D : Type 0} (m : Machine D) (a : Args) (mem0 : ℕ → D) where
  -- The operands as they lie in the memory, and a component of the product.
  abbrev pub weight : (r j : ℕ) → D
  weight r j = mem0 (a.w_p + 4 * (a.n * r + j))

  abbrev pub input : ℕ → D
  input j = mem0 (a.x_p + 4 * j)

  abbrev pub result : ℕ → D
  result r = m.fdotp_32b input (weight r) a.n

  abbrev pub IsKept : Device D → Type 0
  IsKept s = (p : ℕ) → (p < a.xout_p) ⊎ (a.xout_p + 4 * a.d ≤ p) → s.mem p ≡ mem0 p

  abbrev pub AreWritten : ℕ → Device D → Type 0
  AreWritten k s = (r : ℕ) → r < k → r < a.d → s.mem (a.xout_p + 4 * r) ≡ result r

  abbrev pub HasInput : Device D → Type 0
  HasInput s = (j : ℕ) → j < a.n → s.x j ≡ input j

  abbrev pub HasRow : (base it i : ℕ) → Device D → Type 0
  HasRow base it i s =
      (j : ℕ) → base + i < a.d → j < a.n → s.rows (it % 2) (i * a.n + j) ≡ weight (base + i) j

module _ {D : Type 0} (m : Machine D) (a : Args) (mem0 : ℕ → D)
    (static : (i : ℕ) → m.core_idx i ≡ i) (local : IsLocal m.fdotp_32b) (laid : AreLaidOut a) where
  pub row-IsKept :
      (base it i : ℕ) (s : Device D) → IsKept m a mem0 s → IsKept m a mem0 (row m a base it i s)
  row-IsKept base it i s kept p apart =
      row-mem m a base it i s p ∙ ground (arith, kept p apart, laid.out_fits)

  pub row-AreWritten :
      (base it i : ℕ) (s : Device D)
      → HasInput m a mem0 s
      → HasRow m a mem0 base it i s
      → AreWritten m a mem0 (base + i) s
      → AreWritten m a mem0 (base + i + 1) (row m a base it i s)
  row-AreWritten base it i s has_x has_row written r lo in_d = elim (dec_lt r (base + i)) [
    | yes before ↦
        row-mem m a base it i s (a.xout_p + 4 * r)
        ∙ ground (arith, written r before in_d, laid.out_fits)
    | no now ↦
        let here : r ≡ base + i = omega arith in
        let computed : m.fdotp_32b s.x (λ j. s.rows (it % 2) (m.core_idx i * a.n + j)) a.n
            ≡ result m a mem0 (base + i) =
          local s.x (input m a mem0) _ (weight m a mem0 (base + i)) a.n has_x
            λ j lo'. rw (static i) (has_row j (omega arith) lo') in
        row-mem m a base it i s (a.xout_p + 4 * r) ∙ ground (arith, computed, laid.out_fits)
  ]

pub wait_all-none :
    {D : Type 0} (u : Device D) → u.pending ≡ [] → wait_all u ≡ record u { pending = [] }
wait_all-none u e = ap (λ p. record (land_all p u) { pending = [] }) e

pub wait_all-one :
    {D : Type 0} (u : Device D) (t : Transfer)
    → u.pending ≡ t ∷ []
    → wait_all u ≡ record (land t u) { pending = [] }
wait_all-one u t e = ap (λ p. record (land_all p u) { pending = [] }) e

module _ {D : Type 0} (m : Machine D) (a : Args) where
  -- The transfer of the next rows.
  abbrev pub next_rows : (base it : ℕ) → Transfer
  next_rows base it = record {
    target = to_rows ((it + 1) % 2);
    source = (a.w_p + a.n * float_bytes * (base + cores)) % 2 ^ 32;
    floats = a.n * min_of (a.d - base - cores) cores;
  }

  pub fetch-more :
      (base it : ℕ) (t : Device D)
      → base + 2 < a.d
      → t.pending ≡ []
      → let f = fetch m a base it t in
        (f.mem ≡ t.mem)
        × (f.x ≡ t.x)
        × (f.pending ≡ next_rows base it ∷ [])
        × ((j : ℕ) → f.rows (it % 2) j ≡ t.rows (it % 2) j)
  unfolding fetch
  fetch-more base it t more e = (ground arith, ground arith, ground arith, λ j. ground arith)

  pub fetch-last : (base it : ℕ) (t : Device D) → a.d ≤ base + 2 → fetch m a base it t ≡ t
  unfolding fetch
  fetch-last base it t last = ground arith
