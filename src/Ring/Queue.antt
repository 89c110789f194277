-- ===== src/Ring/Queue.antt =====
-- The abstract mailbox: a FIFO of at most `cap` elements, oldest first.
use hero_tools.Prelude.{
  ℕ, ◌≡◌, ◌≢◌, List, [], ◌∷◌, ◌++◌, Option, none, some, ◌==◌, if◌then◌else◌, length, ==_false,
  ==_iff,
}
use hero_tools.Prelude.Int.{ℤ, pos, negsuc}

module _ {ℓ} {A : Type ℓ} where
  unfoldable pub push : ℕ → List A → A → ℤ × List A
  push cap q x = if length q == cap then (negsuc 0, q) else (pos 0, q ++ (x ∷ []))

  unfoldable pub pop : List A → ℤ × Option A × List A
  pop [] = (negsuc 0, none, [])
  pop (x ∷ q) = (pos 0, some x, q)

  pub push_full : (cap : ℕ) (q : List A) (x : A) → length q ≡ cap → push cap q x ≡ (negsuc 0, q)
  unfolding push
  push_full cap q x e = rw ((==_iff (length q) cap).1 e)

  pub push_room :
      (cap : ℕ) (q : List A) (x : A) → length q ≢ cap → push cap q x ≡ (pos 0, q ++ (x ∷ []))
  unfolding push
  push_room cap q x ne = rw (==_false (length q) cap ne)
