-- ===== src/Timestamps.antt =====
-- sw/libhero/src/common/hero_api.c, the timestamps, with sw/libhero/include/libhero/debug.h:
-- `sub_timespec`, `hero_add_timestamp` and `hero_print_timestamp`. What the system answers to a call is a
-- parameter (`Moment`).
pub mod Laws
mod Tests
use hero_tools.Prelude.{
  ℕ, zero, suc, ◌+◌, ◌-◌, Bool, true, false, ◌&&◌, List, [], ◌∷◌, ◌++◌, ltb, leb, ◌==◌,
  if◌then◌else◌,
}
use hero_tools.Prelude.Int.{ℤ, pos, negsuc, is_nonzero, is_negative}
use hero_tools.Prelude.Bits.{sub64}

abbrev pub max_timestamps : ℕ
max_timestamps = 1024

abbrev pub ns_per_second : ℕ
ns_per_second = 1000000000

-- The time of a clock, not negative and with less than a second in `tv_nsec`, and a difference of two.
pub record Timespec : Type 0 where
  pub tv_sec : ℕ
  pub tv_nsec : ℕ

pub record TimeDiff : Type 0 where
  pub tv_sec : ℤ
  pub tv_nsec : ℤ

-- a - b
abbrev pub minus : ℕ → ℕ → ℤ
minus a b = if leb b a then pos (a - b) else negsuc (b - a - 1)

abbrev pub add_nat : ℤ → ℕ → ℤ
add_nat (pos n) k = pos (n + k)
add_nat (negsuc n) k = minus k (n + 1)

abbrev pub sub_nat : ℤ → ℕ → ℤ
sub_nat (pos n) k = minus n k
sub_nat (negsuc n) k = negsuc (n + k)

abbrev pub is_positive : ℤ → Bool
is_positive (pos zero) = false
is_positive (pos (suc n)) = true
is_positive (negsuc n) = false

unfoldable pub sub_timespec : Timespec → Timespec → TimeDiff
sub_timespec t1 t2 =
    let sec = minus t2.tv_sec t1.tv_sec in
    let nsec = minus t2.tv_nsec t1.tv_nsec in
    if is_positive sec && is_negative nsec
    then record { tv_sec = sub_nat sec 1; tv_nsec = add_nat nsec ns_per_second }
    else (if is_negative sec && is_positive nsec
        then record { tv_sec = add_nat sec 1; tv_nsec = sub_nat nsec ns_per_second }
        else record { tv_sec = sec; tv_nsec = nsec })

-- `struct hero_timestamp`, in the mode of the cycle counter; `T` is the type of the texts of 32 characters.
pub record Timestamp (T : Type 0) : Type 0 where
  pub cycle : ℕ
  pub str_info : T
  pub str_func : T

-- The array and the globals; `opens` counts the calls of `open`, `traced` lists those of `write`.
pub record Stamps (T : Type 0) : Type 0 where
  pub hero_timestamps : ℕ → Timestamp T
  pub hero_num_timestamps : ℕ
  pub hero_marker_fd : ℤ
  pub opens : ℕ
  pub traced : List (ℤ × T)

-- A call's arguments, with the cycle counter and what `open` returns if it is called.
pub record Moment (T : Type 0) : Type 0 where
  pub stamp : Timestamp T
  pub add_to_ftrace : Bool
  pub open_result : ℤ

module _ {T : Type 0} where
  -- The marker file is opened if there is none.
  abbrev pub open_marker : ℤ → Stamps T → Stamps T
  open_marker fd s =
      if is_nonzero s.hero_marker_fd
      then s
      else record s { hero_marker_fd = fd; opens = s.opens + 1 }

  unfoldable pub hero_add_timestamp : Moment T → Stamps T → Stamps T
  hero_add_timestamp m s =
      let s1 = open_marker m.open_result s in
      let n = s1.hero_num_timestamps in
      let s2 : Stamps T = record s1 {
        hero_timestamps = λ i. if i == n then m.stamp else s1.hero_timestamps i;
        traced =
            if m.add_to_ftrace
            then s1.traced ++ ((s1.hero_marker_fd, m.stamp.str_info) ∷ [])
            else s1.traced;
      } in
      if leb max_timestamps s.hero_num_timestamps
      then s
      else record s2 { hero_num_timestamps = n + 1 }

  unfoldable pub add_timestamps : List (Moment T) → Stamps T → Stamps T
  add_timestamps [] s = s
  add_timestamps (m ∷ ms) s = add_timestamps ms (hero_add_timestamp m s)

  -- The loop of `hero_print_timestamp`: the rounds left, and `i`. A line has the timestamp and the cycles
  -- to the next.
  unfoldable pub print_lines : Stamps T → ℕ → (i : ℕ) → List (Timestamp T × ℕ)
  print_lines s zero i = []
  print_lines s (suc n) i =
      let this = s.hero_timestamps i in
      let following = s.hero_timestamps (i + 1) in
      let diff =
        if ltb (i + 1) s.hero_num_timestamps then sub64 following.cycle this.cycle else 0 in
      (this, diff) ∷ print_lines s n (i + 1)

  unfoldable pub hero_print_timestamp : Stamps T → List (Timestamp T × ℕ)
  hero_print_timestamp s = print_lines s s.hero_num_timestamps 0
