-- ===== src/Timestamps/Laws.antt =====
-- What the timestamps hold after any calls, and what a difference of two times is.
use Prim.Native.Nat.{min}
use hero_tools.Prelude.{
  ℕ, zero, suc, ◌+◌, ◌*◌, ◌≤◌, ◌<◌, ◌≡◌, refl, ◌∙◌, false, ◌&&◌, Option, none, some, List, [], ◌∷◌,
  arith, length, ◌==◌, if◌then◌else◌,
}
use native.Mathlib.Decide.{dec_lt}
use hero_tools.Prelude.Int.{ℤ, pos, negsuc, is_negative}
use hero_tools.Timestamps.{
  max_timestamps, ns_per_second, Timespec, is_positive, sub_timespec, Timestamp, Stamps, Moment,
  hero_add_timestamp, add_timestamps,
}

abbrev pub pos_part : ℤ → ℕ
pos_part (pos n) = n
pos_part (negsuc n) = 0

abbrev pub neg_part : ℤ → ℕ
neg_part (pos n) = 0
neg_part (negsuc n) = n + 1

-- `sub_timespec` gives the exact difference of two times in nanoseconds, with less than a second in
-- `tv_nsec`, and seconds and nanoseconds never of opposite sign. Both times have less than a second
-- in `tv_nsec`.
sub_timespec-exact :
    (t1 t2 : Timespec)
    → t1.tv_nsec < ns_per_second
    → t2.tv_nsec < ns_per_second
    → let d = sub_timespec t1 t2 in
      (t1.tv_sec * ns_per_second
          + t1.tv_nsec
          + pos_part d.tv_sec * ns_per_second
          + pos_part d.tv_nsec
        ≡ t2.tv_sec * ns_per_second
          + t2.tv_nsec
          + neg_part d.tv_sec * ns_per_second
          + neg_part d.tv_nsec)
      × (pos_part d.tv_nsec < ns_per_second)
      × (neg_part d.tv_nsec < ns_per_second)
      × ((is_positive d.tv_sec && is_negative d.tv_nsec) ≡ false)
      × ((is_negative d.tv_sec && is_positive d.tv_nsec) ≡ false)
unfolding sub_timespec
sub_timespec-exact t1 t2 h1 h2 = ground arith

module _ {T : Type 0} where
  -- A call past the end changes nothing; any other fills the next entry.
  add-full :
      (m : Moment T) (s : Stamps T)
      → max_timestamps ≤ s.hero_num_timestamps
      → hero_add_timestamp m s ≡ s
  unfolding hero_add_timestamp
  add-full m s full = ground arith

  add-next :
      (m : Moment T) (s : Stamps T)
      → s.hero_num_timestamps < max_timestamps
      → let s' = hero_add_timestamp m s in
        (s'.hero_num_timestamps ≡ s.hero_num_timestamps + 1)
        × ((i : ℕ)
            → s'.hero_timestamps i
              ≡ (if i == s.hero_num_timestamps then m.stamp else s.hero_timestamps i))
  unfolding hero_add_timestamp
  add-next m s room = (ground arith, λ i. ground arith)

  -- The timestamp of a call in a list.
  abbrev pub stamp_at : List (Moment T) → ℕ → Option (Timestamp T)
  stamp_at [] i = none
  stamp_at (m ∷ ms) zero = some m.stamp
  stamp_at (m ∷ ms) (suc i) = stamp_at ms i

  -- What calls leave: the count, the entries before them, their own, and what lies behind the array.
  abbrev Leaves : List (Moment T) → Stamps T → Stamps T → Type 0
  Leaves ms s s' =
      (s'.hero_num_timestamps ≡ min (s.hero_num_timestamps + length ms) max_timestamps)
      × ((i : ℕ) → i < s.hero_num_timestamps → s'.hero_timestamps i ≡ s.hero_timestamps i)
      × ((j : ℕ)
          → s.hero_num_timestamps + j < s'.hero_num_timestamps
          → stamp_at ms j ≡ some (s'.hero_timestamps (s.hero_num_timestamps + j)))
      × ((i : ℕ) → max_timestamps ≤ i → s'.hero_timestamps i ≡ s.hero_timestamps i)

  Leaves-cons :
      (m : Moment T) (ms : List (Moment T)) (s s' : Stamps T)
      → s.hero_num_timestamps < max_timestamps
      → Leaves ms (hero_add_timestamp m s) s'
      → Leaves (m ∷ ms) s s'
  Leaves-cons m ms s s' room (count, before, own, behind) =
      let (next, entry) = add-next m s room in
      (
        omega (arith, count, next),
        λ i lo. before i (omega (arith, next)) ∙ entry i ∙ ground arith,
        at,
        λ i hi. behind i hi ∙ entry i ∙ ground arith,
      )
    where
      at :
          (j : ℕ)
          → s.hero_num_timestamps + j < s'.hero_num_timestamps
          → stamp_at (m ∷ ms) j ≡ some (s'.hero_timestamps (s.hero_num_timestamps + j))
      at zero lo =
          let here = s.hero_num_timestamps + 0 in
          ground
            (arith, before here (omega (arith, (add-next m s room).0)), (add-next m s room).1 here)
      at (suc j) lo =
          let next = (add-next m s room).0 in ground (arith, next, own j (omega (arith, next, lo)))

  add_timestamps-Leaves :
      (ms : List (Moment T)) (s : Stamps T)
      → s.hero_num_timestamps ≤ max_timestamps
      → Leaves ms s (add_timestamps ms s)
  unfolding add_timestamps
  add_timestamps-Leaves [] s fits =
      (omega arith, λ i lo. refl, λ j lo. absurd (omega arith), λ i hi. refl)
  add_timestamps-Leaves (m ∷ ms) s fits = elim (dec_lt s.hero_num_timestamps max_timestamps) [
    | yes room ↦
        let s1 = hero_add_timestamp m s in
        Leaves-cons m ms s (add_timestamps ms s1) room
          (add_timestamps-Leaves ms s1 (omega (arith, (add-next m s room).0)))
    | no full ↦
        let (count, before, own, behind) = add_timestamps-Leaves ms s fits in
        rw (add_timestamps, add-full m s (omega arith))
          (omega (arith, count), before, λ j lo. absurd (omega (arith, count)), behind)
  ]

  -- After any calls of `hero_add_timestamp` from an empty array the array holds the timestamps of
  -- the first of them, at most MAX_TIMESTAMPS, in order, `hero_num_timestamps` is their number,
  -- and nothing was stored behind the array.
  pub add_timestamps-first :
      (ms : List (Moment T)) (s : Stamps T)
      → s.hero_num_timestamps ≡ 0
      → let s' = add_timestamps ms s in
        (s'.hero_num_timestamps ≡ min (length ms) max_timestamps)
        × ((i : ℕ) → i < s'.hero_num_timestamps → stamp_at ms i ≡ some (s'.hero_timestamps i))
        × ((i : ℕ) → max_timestamps ≤ i → s'.hero_timestamps i ≡ s.hero_timestamps i)
  add_timestamps-first ms s empty =
      let (count, before, own, behind) = add_timestamps-Leaves ms s (omega arith) in
      (omega (arith, count), λ i lo. ground (arith, own i), behind)
