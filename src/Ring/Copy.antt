-- ===== src/Ring/Copy.antt =====
-- The byte loop of ringbuf.h against the list of the bytes that it moves.
use hero_tools.Prelude.{
  ℕ, zero, suc, ◌+◌, ◌≤◌, ◌<◌, ◌≡◌, ◌≢◌, refl, ◌∙◌, inl, inr, arith, ◌==◌, ==_false, Bool-cases,
  ==_iff,
}
use hero_tools.Prelude.Memory.{Mem, View, write_byte, bytes, bytes_ext}
use hero_tools.Ring.{copy_bytes}

-- The cells that a processor reaches from `a` on are the memory's from `p` on.
abbrev pub MapsTo : View → (a p n : ℕ) → Type 0
MapsTo v a p n = (i : ℕ) → i < n → v (a + i) ≡ p + i

-- No address of `a … a + n` leads into the `k` cells from `p` on.
abbrev pub Apart : View → (a n p k : ℕ) → Type 0
Apart v a n p k = (i j : ℕ) → i < n → j < k → v (a + i) ≢ p + j

module _ (v : View) (dst p n : ℕ) (to : MapsTo v dst p n) where
  -- Cells outside the rounds left stay as they are.
  pub copy_bytes-frame :
      (src k i : ℕ) (m : Mem) (x : ℕ)
      → i + k ≤ n
      → ((j : ℕ) → i ≤ j → j < i + k → x ≢ p + j)
      → copy_bytes v dst src k i m x ≡ m x
  unfolding copy_bytes
  copy_bytes-frame src zero i m x fits out = refl
  copy_bytes-frame src (suc k) i m x fits out =
      copy_bytes-frame src k (i + 1) (write_byte m (v (dst + i)) (m (v (src + i)))) x (omega arith)
        (λ j lo hi. out j (omega arith) (omega arith))
      ∙ rw (to i (omega arith), ==_false x (p + i) (out i (omega arith) (omega arith)))

  -- The other cells hold what the source held, if the source lies apart.
  pub copy_bytes-cell :
      (src k i : ℕ) (m : Mem) (j : ℕ)
      → i + k ≤ n
      → Apart v src n p n
      → i ≤ j
      → j < i + k
      → copy_bytes v dst src k i m (p + j) ≡ m (v (src + j))
  unfolding copy_bytes
  copy_bytes-cell src zero i m j fits apart lo hi = absurd (omega arith)
  copy_bytes-cell src (suc k) i m j fits apart lo hi = elim (Bool-cases (j == i)) [
    | inl e ↦
        let e' : j ≡ i = (==_iff j i).0 e in
        rw e' (
          copy_bytes-frame src k (i + 1) (write_byte m (v (dst + i)) (m (v (src + i)))) (p + i)
            (omega arith) (λ l lo' hi'. omega arith)
          ∙ rw (to i (omega arith), (==_iff (p + i) (p + i)).1 refl))
    | inr ne ↦
        copy_bytes-cell src k (i + 1) (write_byte m (v (dst + i)) (m (v (src + i)))) j (omega arith)
          apart (ground arith) (omega arith)
        ∙ rw (to i (omega arith), ==_false _ _ (apart j i (omega arith) (omega arith)))
  ]

  -- The whole loop: the destination holds the source's bytes.
  pub bytes-copy_bytes :
      (src : ℕ) (m : Mem)
      → Apart v src n p n
      → bytes (λ x. x) (copy_bytes v dst src n 0 m) p n ≡ bytes v m src n
  bytes-copy_bytes src m apart =
      bytes_ext (λ x. x) v (copy_bytes v dst src n 0 m) m p src n
        λ i h. copy_bytes-cell src n 0 m i (omega arith) apart (omega arith) (omega arith)
