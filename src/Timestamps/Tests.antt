-- ===== src/Timestamps/Tests.antt =====
-- Two timestamps, and the difference of two times.
use Prim.Native.Nat.{min}
use hero_tools.Prelude.{ℕ, ◌+◌, ◌≤◌, ◌<◌, ◌≡◌, refl, true, some, List, [], ◌∷◌}
use hero_tools.Prelude.Int.{pos}
use hero_tools.Timestamps.{
  max_timestamps, Timespec, Timestamp, Stamps, Moment, add_timestamps, hero_add_timestamp,
  hero_print_timestamp, print_lines,
}
use hero_tools.Timestamps.Laws.{stamp_at, add_timestamps-first}

abbrev moment : ℕ → Moment ℕ
moment c = record {
  stamp = record { cycle = c; str_info = c + 1; str_func = 7 };
  add_to_ftrace = true;
  open_result = pos 3;
}

abbrev unused : Timestamp ℕ
unused = record { cycle = 0; str_info = 0; str_func = 0 }

abbrev none_yet : Stamps ℕ
none_yet = record {
  hero_timestamps = λ i. unused;
  hero_num_timestamps = 0;
  hero_marker_fd = pos 0;
  opens = 0;
  traced = [];
}

abbrev moments : List (Moment ℕ)
moments = moment 100 ∷ moment 250 ∷ []

-- The marker file is opened once, and the first line has the cycles to the second.
opens_run : (add_timestamps moments none_yet).opens ≡ 1
unfolding add_timestamps hero_add_timestamp
opens_run = refl

print_run :
    hero_print_timestamp (add_timestamps moments none_yet)
    ≡ ((moment 100).stamp, 150) ∷ ((moment 250).stamp, 0) ∷ []
unfolding add_timestamps hero_add_timestamp hero_print_timestamp print_lines
print_run = refl

add_timestamps-first_example :
    let s' = add_timestamps moments none_yet in
    (s'.hero_num_timestamps ≡ min 2 max_timestamps)
    × ((i : ℕ) → i < s'.hero_num_timestamps → stamp_at moments i ≡ some (s'.hero_timestamps i))
    × ((i : ℕ) → max_timestamps ≤ i → s'.hero_timestamps i ≡ unused)
add_timestamps-first_example = add_timestamps-first moments none_yet refl

abbrev earlier : Timespec
earlier = record { tv_sec = 5; tv_nsec = 900000000 }

abbrev later : Timespec
later = record { tv_sec = 7; tv_nsec = 100000000 }
