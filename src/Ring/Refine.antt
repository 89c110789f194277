-- ===== src/Ring/Refine.antt =====
-- The accessors of ringbuf.h behave as the operations of a FIFO of `size - 1` elements.
use hero_tools.Prelude.{
  ℕ, ◌+◌, ◌-◌, ◌*◌, ◌%◌, ◌≤◌, ◌<◌, ◌≡◌, ◌≢◌, sym, ap, ap₂, ◌∙◌, List, [], ◌∷◌, ◌++◌, Option, none,
  some, inl, inr, arith, ◌==◌, if◌then◌else◌, ==_iff, Bool-cases,
}
use native.Mathlib.Nat.{mod-eq_of_lt}
use native.Mathlib.Numerals.{add-one}
use native.Mathlib.Decide.{dec_lt}
use hero_tools.Prelude.Int.{ℤ, pos, is_nonzero}
use hero_tools.Prelude.Bits.{add32}
use hero_tools.Prelude.Memory.{Mem, View, bytes, bytes_ext}
use hero_tools.Ring.{RingBuf, copy_bytes, slot_offset, next_index, put_at, get_at}
use hero_tools.Ring.Copy.{MapsTo, Apart, copy_bytes-frame, bytes-copy_bytes}
use hero_tools.Ring.Queue
use hero_tools.Ring.Contents.{
  IsValid, count, window, length-contents, window_of_pos, window_ext, window_write, slot, contents,
  not_full_of_ne, count_lt, empty_of_eq, pos_of_ne, full_of_eq, count_pushed, count_popped,
  head_behind,
}

-- A byte of a slot lies inside the data array.
slot_in : (es size k i : ℕ) → k < size → i < es → es * k + i < es * size
slot_in es size k i hk hi = grind arith

-- Two slots share no byte.
slots_ne : (es k t i j : ℕ) → k ≢ t → i < es → j < es → es * k + i ≢ es * t + j
slots_ne es k t i j ne hi hj = elim (dec_lt k t) [
  | yes below ↦ omega (arith, slot_in es t k i below hi)
  | no above ↦ omega (arith, slot_in es k t j (omega arith) hj)
]

-- An access to the ring: a processor with the view `v`, which reaches the data array, the cells from
-- `cells` on, by `base`, and a buffer `el` of its own that lies apart from the array.
pub record Access (v : View) (base cells : ℕ) (rb : RingBuf) (el : ℕ) : Type 0 where
  pub valid : IsValid rb
  pub array : MapsTo v base cells (rb.element_size * rb.size)
  pub apart : Apart v el rb.element_size cells (rb.element_size * rb.size)

module _ {v : View} {base cells : ℕ} {rb : RingBuf} {el : ℕ} (acc : Access v base cells rb el) where
  le_mul : (k : ℕ) → k < rb.size → rb.element_size * k ≤ rb.element_size * rb.size
  le_mul k h = grind arith

  slot_offset-lt : (k : ℕ) → k < rb.size → slot_offset rb k ≡ rb.element_size * k
  slot_offset-lt k h = mod-eq_of_lt (omega (arith, le_mul k h, acc.valid.array_in))

  next_index-lt : (k : ℕ) → k < rb.size → next_index rb k ≡ (k + 1) % rb.size
  next_index-lt k h = let small : add32 k 1 ≡ k + 1 = omega (arith, acc.valid.size_in) in rw small

  array-slot :
      (k : ℕ)
      → k < rb.size
      → MapsTo v (base + slot_offset rb k) (cells + rb.element_size * k) rb.element_size
  array-slot k h i hi = rw (slot_offset-lt k h) (
      ap v (omega arith)
      ∙ acc.array (rb.element_size * k + i) (slot_in rb.element_size rb.size k i h hi)
      ∙ omega arith)

  Apart-slot :
      (k : ℕ)
      → k < rb.size
      → Apart v el rb.element_size (cells + rb.element_size * k) rb.element_size
  Apart-slot k h i j hi hj = λ e.
      acc.apart i (rb.element_size * k + j) hi (slot_in rb.element_size rb.size k j h hj)
        (e ∙ omega arith)

  -- A put writes the element into its slot, and leaves the other slots alone.
  module _ (k : ℕ) (h : k < rb.size) (m : Mem) where
    abbrev stored : Mem
    stored = copy_bytes v (base + slot_offset rb k) el rb.element_size 0 m

    slot_put : slot cells rb.element_size stored k ≡ bytes v m el rb.element_size
    slot_put =
        bytes-copy_bytes v (base + slot_offset rb k) (cells + rb.element_size * k) rb.element_size
          (array-slot k h) el m (Apart-slot k h)

    slot_put_ne :
        (j : ℕ)
        → j < rb.size
        → j ≢ k
        → slot cells rb.element_size stored j ≡ slot cells rb.element_size m j
    slot_put_ne j hj ne =
        bytes_ext (λ x. x) (λ x. x) stored m _ _ rb.element_size
          λ i hi.
            copy_bytes-frame v (base + slot_offset rb k) (cells + rb.element_size * k)
              rb.element_size (array-slot k h) el rb.element_size 0 m _ (omega arith)
              λ l _ hl e. slots_ne rb.element_size j k i l ne hi (omega arith) (omega arith)

  full_iff : (next_index rb rb.head == rb.tail) ≡ ((rb.head + 1) % rb.size == rb.tail)
  full_iff = rw (next_index-lt rb.head acc.valid.head_in)

  grow :
      (m : Mem)
      → window rb.size
          (slot cells rb.element_size (stored rb.head acc.valid.head_in m))
          rb.tail
          (count rb + 1)
        ≡ contents cells rb m ++ (bytes v m el rb.element_size ∷ [])
  grow m = rw add-one (
      window_write rb.size (slot cells rb.element_size m)
        (slot cells rb.element_size (stored rb.head acc.valid.head_in m))
        (bytes v m el rb.element_size) rb.head (count rb) rb.tail acc.valid.tail_in
        (count_lt acc.valid) (sym (head_behind acc.valid)) (slot_put_ne rb.head acc.valid.head_in m)
        (slot_put rb.head acc.valid.head_in m))

  -- A put on a valid ring is a push on the FIFO of its contents.
  pub put_at_refines :
      (m : Mem)
      → let (r, rb', m') = put_at v base rb el m in
        (r, contents cells rb' m')
        ≡ Queue.push (rb.size - 1) (contents cells rb m) (bytes v m el rb.element_size)
  unfolding put_at
  put_at_refines m = elim (Bool-cases ((rb.head + 1) % rb.size == rb.tail)) [
    | inl full ↦
        rw (full_iff, full)
          (sym (
            Queue.push_full _ _ _
              (length-contents cells rb m ∙ full_of_eq acc.valid ((==_iff _ _).0 full))))
    | inr room ↦
        let ne : (rb.head + 1) % rb.size ≢ rb.tail = ground arith in
        rw (full_iff, room, next_index-lt rb.head acc.valid.head_in, count_pushed acc.valid ne)
          (ap (λ q. (pos 0, q)) (grow m)
            ∙ sym (
                Queue.push_room _ _ _
                  (λ e. not_full_of_ne acc.valid ne (sym (length-contents cells rb m) ∙ e))))
  ]

  -- A put changes no cell outside the data array.
  pub put_at-frame :
      (m : Mem) (x : ℕ)
      → ((j : ℕ) → j < rb.element_size * rb.size → x ≢ cells + j)
      → (put_at v base rb el m).2 x ≡ m x
  unfolding put_at
  put_at-frame m x out = elim (Bool-cases (next_index rb rb.head == rb.tail)) [
    | inl full ↦ rw full
    | inr room ↦ rw room (
        copy_bytes-frame v (base + slot_offset rb rb.head) (cells + rb.element_size * rb.head)
          rb.element_size (array-slot rb.head acc.valid.head_in) el rb.element_size 0 m x
          (omega arith)
          λ j _ hj e.
            out (rb.element_size * rb.head + j)
              (slot_in rb.element_size rb.size rb.head j acc.valid.head_in (omega arith))
              (e ∙ omega arith))
  ]

-- What the C caller of a get sees: the status, and the bytes at `el` if it is 0.
abbrev pub got : ℤ → List ℕ → Option (List ℕ)
got r xs = if is_nonzero r then none else some xs

-- A get writes to the caller's buffer alone, whose cells start at `at`.
module _ {v : View} {base cells : ℕ} {rb : RingBuf} {el : ℕ} (acc : Access v base cells rb el)
    (at : ℕ) (own : MapsTo v el at rb.element_size) where
  abbrev fetched : Mem → Mem
  fetched m = copy_bytes v el (base + slot_offset rb rb.tail) rb.element_size 0 m

  source-Apart : Apart v (base + slot_offset rb rb.tail) rb.element_size at rb.element_size
  source-Apart i j hi hj e =
      acc.apart j (rb.element_size * rb.tail + i) hj
        (slot_in rb.element_size rb.size rb.tail i acc.valid.tail_in hi)
        (own j hj ∙ sym e ∙ array-slot acc rb.tail acc.valid.tail_in i hi ∙ omega arith)

  fetched_bytes :
      (m : Mem) → bytes v (fetched m) el rb.element_size ≡ slot cells rb.element_size m rb.tail
  fetched_bytes m =
      bytes_ext v (λ x. x) (fetched m) (fetched m) el at rb.element_size
        (λ i h. ap (fetched m) (own i h))
      ∙ bytes-copy_bytes v el at rb.element_size own (base + slot_offset rb rb.tail) m source-Apart
      ∙ bytes_ext v (λ x. x) m m (base + slot_offset rb rb.tail) (cells + rb.element_size * rb.tail)
          rb.element_size (λ i h. ap m (array-slot acc rb.tail acc.valid.tail_in i h))

  slot-fetched :
      (m : Mem) (k : ℕ)
      → k < rb.size
      → slot cells rb.element_size (fetched m) k ≡ slot cells rb.element_size m k
  slot-fetched m k h =
      bytes_ext (λ x. x) (λ x. x) (fetched m) m _ _ rb.element_size
        λ i hi.
          copy_bytes-frame v el at rb.element_size own (base + slot_offset rb rb.tail)
            rb.element_size 0 m _ (omega arith)
            λ j _ hj e.
              acc.apart j (rb.element_size * k + i) (omega arith)
                (slot_in rb.element_size rb.size k i h hi)
                (own j (omega arith) ∙ sym e ∙ omega arith)

  -- A get on a valid ring is a pop of the FIFO of its contents: same status, the oldest element in
  -- the caller's buffer, the rest left.
  pub get_at_refines :
      (m : Mem)
      → let (r, rb', m') = get_at v base rb el m in
        (r, got r (bytes v m' el rb.element_size), contents cells rb' m')
        ≡ Queue.pop (contents cells rb m)
  unfolding get_at Queue.pop
  get_at_refines m = elim (Bool-cases (rb.tail == rb.head)) [
    | inl empty ↦
        let none_left : count rb ≡ 0 = empty_of_eq acc.valid ((==_iff _ _).0 empty) in
        rw (empty, none_left)
    | inr left ↦
        let ne : rb.tail ≢ rb.head = ground arith in
        rw
          (
            left,
            next_index-lt acc rb.tail acc.valid.tail_in,
            count_popped acc.valid ne,
            window_of_pos rb.size (slot cells rb.element_size m) rb.tail (count rb)
                (pos_of_ne acc.valid ne),
          )
          (ap₂ (λ x q. (pos 0, some x, q)) (fetched_bytes m)
            (window_ext rb.size (slot cells rb.element_size m)
              (slot cells rb.element_size (fetched m)) ((rb.tail + 1) % rb.size) (count rb - 1)
              (omega (arith, acc.valid.tail_in)) (slot-fetched m)))
  ]

  -- A get changes no cell outside the caller's buffer.
  pub get_at-frame :
      (m : Mem) (x : ℕ)
      → ((j : ℕ) → j < rb.element_size → x ≢ at + j)
      → (get_at v base rb el m).2 x ≡ m x
  unfolding get_at
  get_at-frame m x out = elim (Bool-cases (rb.tail == rb.head)) [
    | inl empty ↦ rw empty
    | inr left ↦ rw left (
        copy_bytes-frame v el at rb.element_size own (base + slot_offset rb rb.tail) rb.element_size
          0 m x (omega arith) λ j _ hj. out j (omega arith))
  ]
