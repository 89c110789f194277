-- ===== src/Ring/Contents.antt =====
-- What a ring buffer holds: the elements from `tail` round to `head`, oldest first.
use hero_tools.Prelude.{
  ℕ, zero, suc, ◌+◌, ◌-◌, ◌*◌, ◌%◌, ◌^◌, ◌≤◌, ◌<◌, ◌≡◌, ◌≢◌, refl, ap, ap₂, ◌∙◌, List, [], ◌∷◌,
  ◌++◌, ◌⊎◌, inl, inr, arith, length,
}
use native.Mathlib.Nat.{mod-eq_of_lt, mod-eq-sub-mod, mod-add-mod, add-zero}
use native.Mathlib.Decide.{dec_lt}
use hero_tools.Prelude.Memory.{Mem, bytes}
use hero_tools.Ring.{RingBuf}

-- Indices in range, and a data array whose size is a 32-bit number.
pub record IsValid (rb : RingBuf) : Type 0 where
  pub head_in : rb.head < rb.size
  pub tail_in : rb.tail < rb.size
  pub size_in : rb.size < 2 ^ 32
  pub array_in : rb.element_size * rb.size < 2 ^ 32

-- The number of elements in the buffer.
abbrev pub count : RingBuf → ℕ
count rb = (rb.head + rb.size - rb.tail) % rb.size

-- Below twice the modulus, `%` subtracts at most once.
mod_cases : (x n : ℕ) → x < n + n → ((x < n) × (x % n ≡ x)) ⊎ ((n ≤ x) × (x % n ≡ x - n))
mod_cases x n h = elim (dec_lt x n) [
  | yes below ↦ inl (below, mod-eq_of_lt below)
  | no above ↦ inr (
    omega arith,
    mod-eq-sub-mod {n = x} {m = n} (omega arith) ∙ mod-eq_of_lt {n = x - n} {m = n} (omega arith),
  )
]

-- Fewer than `size` steps round the ring do not come back to the start.
step-ne : (size h k : ℕ) → h < size → suc k < size → h ≢ (h + suc k) % size
step-ne size h k hh hk = omega (arith, mod_cases (h + suc k) size (omega arith))

module _ {A : Type 0} (size : ℕ) where
  -- `n` slots from `h` on, going round at `size`.
  abbrev pub window : (ℕ → A) → ℕ → ℕ → List A
  window cell h zero = []
  window cell h (suc n) = cell h ∷ window cell ((h + 1) % size) n

  pub length-window : (cell : ℕ → A) (h n : ℕ) → length (window cell h n) ≡ n
  length-window cell h zero = refl
  length-window cell h (suc n) = ap suc (length-window cell ((h + 1) % size) n)

  -- The code tests indices, `window` matches on `suc`.
  pub window_of_pos :
      (cell : ℕ → A) (h n : ℕ)
      → 0 < n
      → window cell h n ≡ cell h ∷ window cell ((h + 1) % size) (n - 1)
  window_of_pos cell h zero p = absurd (omega arith)
  window_of_pos cell h (suc n) p = ap (λ k. window cell h (suc k)) (omega arith)

  -- Only the slots of the ring matter.
  pub window_ext :
      (cell cell' : ℕ → A) (h n : ℕ)
      → h < size
      → ((k : ℕ) → k < size → cell' k ≡ cell k)
      → window cell' h n ≡ window cell h n
  window_ext cell cell' h zero hh same = refl
  window_ext cell cell' h (suc n) hh same =
      ap₂ ◌∷◌ (same h hh) (window_ext cell cell' ((h + 1) % size) n (omega arith) same)

  -- A write to the slot behind a window appends to it.
  pub window_write :
      (cell cell' : ℕ → A) (x : A) (t n h : ℕ)
      → h < size
      → n < size
      → t ≡ (h + n) % size
      → ((k : ℕ) → k < size → k ≢ t → cell' k ≡ cell k)
      → cell' t ≡ x
      → window cell' h (suc n) ≡ window cell h n ++ (x ∷ [])
  window_write cell cell' x t zero h hh hn e same new =
      let at : h ≡ t = rw (e, add-zero h, mod-eq_of_lt hh) in ap₂ ◌∷◌ (ap cell' at ∙ new) refl
  window_write cell cell' x t (suc n) h hh hn e same new =
      ap₂ ◌∷◌ (same h hh (rw e (step-ne size h n hh hn))) (
        window_write cell cell' x t n ((h + 1) % size) (omega arith) (omega arith) (e ∙ shift) same
          new)
    where
      shift : (h + suc n) % size ≡ ((h + 1) % size + n) % size
      shift = rw mod-add-mod (ap (λ k. k % size) (omega arith))

-- The element in slot `k` of the data array that starts at the cell `base`.
abbrev pub slot : ℕ → ℕ → Mem → ℕ → List ℕ
slot base es m k = bytes (λ x. x) m (base + es * k) es

abbrev pub contents : ℕ → RingBuf → Mem → List (List ℕ)
contents base rb m = window rb.size (slot base rb.element_size m) rb.tail (count rb)

pub length-contents : (base : ℕ) (rb : RingBuf) (m : Mem) → length (contents base rb m) ≡ count rb
length-contents base rb m = length-window rb.size (slot base rb.element_size m) rb.tail (count rb)

-- What the two tests of the code say of the number of elements.
module _ {rb : RingBuf} (v : IsValid rb) where
  -- The reductions that the code and `count` make.
  folded :
      let n = rb.size in
      (((rb.head + n - rb.tail) < n) × (count rb ≡ rb.head + n - rb.tail))
      ⊎ ((n ≤ rb.head + n - rb.tail) × (count rb ≡ rb.head + n - rb.tail - n))
  folded = mod_cases (rb.head + rb.size - rb.tail) rb.size (omega arith)

  pub count_lt : count rb < rb.size
  count_lt = omega arith

  pub empty_of_eq : rb.tail ≡ rb.head → count rb ≡ 0
  empty_of_eq e = omega (arith, folded)

  pub pos_of_ne : rb.tail ≢ rb.head → 0 < count rb
  pos_of_ne ne = omega (arith, folded)

  pub full_of_eq : (rb.head + 1) % rb.size ≡ rb.tail → count rb ≡ rb.size - 1
  full_of_eq e = omega (arith, folded, mod_cases (rb.head + 1) rb.size (omega arith))

  pub not_full_of_ne : (rb.head + 1) % rb.size ≢ rb.tail → count rb ≢ rb.size - 1
  not_full_of_ne ne = omega (arith, folded, mod_cases (rb.head + 1) rb.size (omega arith))

  pub count_pushed :
      (rb.head + 1) % rb.size ≢ rb.tail
      → ((rb.head + 1) % rb.size + rb.size - rb.tail) % rb.size ≡ count rb + 1
  count_pushed ne =
      let next = (rb.head + 1) % rb.size in
      omega (
        arith,
        folded,
        mod_cases (rb.head + 1) rb.size (omega arith),
        mod_cases (next + rb.size - rb.tail) rb.size (omega arith),
      )

  pub count_popped :
      rb.tail ≢ rb.head → (rb.head + rb.size - (rb.tail + 1) % rb.size) % rb.size ≡ count rb - 1
  count_popped ne =
      let next = (rb.tail + 1) % rb.size in
      omega (
        arith,
        folded,
        mod_cases (rb.tail + 1) rb.size (omega arith),
        mod_cases (rb.head + rb.size - next) rb.size (omega arith),
      )

  pub head_behind : (rb.tail + count rb) % rb.size ≡ rb.head
  head_behind = omega (arith, folded, mod_cases (rb.tail + count rb) rb.size (omega arith))
