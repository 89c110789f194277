-- ===== src/Prelude/Memory.antt =====
-- Byte memory, and the ways in which a processor's addresses reach it.
use Prim.Native.Nat.{ℕ, zero, suc, ◌+◌, ◌<◌}
use mathlib.Core.Path.{◌≡◌, refl, ap₂}
use native.Mathlib.Nat.{add-zero}
use mathlib.Core.List.{List, [], ◌∷◌}
use native.Mathlib.Omega.{arith}
use hero_tools.Prelude.Tests.{◌==◌, if◌then◌else◌}
use hero_tools.Prelude.Lists.{length}

abbrev pub Mem : Type 0
Mem = ℕ → ℕ

-- The page tables of a processor: where an address of its own leads.
abbrev pub View : Type 0
View = ℕ → ℕ

abbrev pub write_byte : Mem → ℕ → ℕ → Mem
write_byte m a b x = if x == a then b else m x

-- `n` bytes from the address `a` on, as a processor with the view `v` reads them.
unfoldable pub bytes : View → Mem → ℕ → ℕ → List ℕ
bytes v m a zero = []
bytes v m a (suc n) = m (v a) ∷ bytes v m (a + 1) n

pub length-bytes : (v : View) (m : Mem) (a n : ℕ) → length (bytes v m a n) ≡ n
unfolding bytes
length-bytes v m a zero = refl
length-bytes v m a (suc n) = omega (arith, length-bytes v m (a + 1) n)

-- Two reads that agree cell by cell give the same list.
pub bytes_ext :
    (v w : View) (m k : Mem) (a b n : ℕ)
    → ((i : ℕ) → i < n → m (v (a + i)) ≡ k (w (b + i)))
    → bytes v m a n ≡ bytes w k b n
unfolding bytes
bytes_ext v w m k a b zero same = refl
bytes_ext v w m k a b (suc n) same = ap₂ ◌∷◌ (ground (arith, same 0, add-zero a, add-zero b)) (
    bytes_ext v w m k (a + 1) (b + 1) n
      λ i h. rw (shift a i, shift b i) (same (i + 1) (omega arith)))
  where
    shift : (c j : ℕ) → c + 1 + j ≡ c + (j + 1)
    shift c j = omega arith
