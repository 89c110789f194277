-- ===== src/Driver/Read/Laws.antt =====
-- The reads of the character device stay inside the information buffer.
use hero_tools.Prelude.{
  ℕ, ◌+◌, ◌-◌, ◌^◌, ◌≤◌, ◌<◌, ◌≡◌, Bool, true, false, arith, if◌then◌else◌, ◌↔◌,
}
use Prim.Native.Nat.{min}
use hero_tools.Prelude.Int.{pos, neg, efault}
use hero_tools.Driver.Read.{
  Copy, card_read, check_permission, rdwr, rdonly, wronly, fmode_read, fmode_write,
}

-- From a position inside the buffer `card_read` asks to copy the bytes asked for, or those left if
-- fewer, and none beyond the end. If the copy succeeds it returns their count and moves by it, else
-- it returns -EFAULT and stays. The buffer has fewer than 2^31 bytes, and fewer than 2^63 are asked
-- for.
card_read_inside :
    (copied : Copy → Bool) (buffer_size count f_pos : ℕ)
    → buffer_size < 2 ^ 31
    → count < 2 ^ 63
    → f_pos ≤ buffer_size
    → let (r, f_pos', c) = card_read copied buffer_size count f_pos in
      (c ≡ record { offset = f_pos; count = min count (buffer_size - f_pos) })
      × (f_pos + c.count ≤ buffer_size)
      × (r ≡ (if copied c then pos c.count else neg efault))
      × (f_pos' ≡ (if copied c then f_pos + c.count else f_pos))
unfolding card_read
card_read_inside copied buffer_size count f_pos small asked inside = ground arith

-- From a position behind the end of the buffer, below 2^63, `card_read` asks to copy 2^64 bytes
-- less the distance: its count wraps. The buffer has fewer than 2^31 bytes, and fewer than 2^63 are
-- asked for.
card_read_beyond :
    (copied : Copy → Bool) (buffer_size count f_pos : ℕ)
    → buffer_size < 2 ^ 31
    → count < 2 ^ 63
    → buffer_size < f_pos
    → f_pos < 2 ^ 63
    → (card_read copied buffer_size count f_pos).2.count ≡ 2 ^ 64 + buffer_size - f_pos
unfolding card_read
card_read_beyond copied buffer_size count f_pos small asked beyond range = ground arith

-- `check_permission` lets everyone open a device for reading and writing, and a device for reading
-- only (writing only) exactly those who open it for reading and not for writing (for writing and
-- not for reading).
check_permission_iff :
    (acc_mode : ℕ)
    → (check_permission rdwr acc_mode ≡ pos 0)
      × ((check_permission rdonly acc_mode ≡ pos 0)
          ↔ ((fmode_read acc_mode ≡ true) × (fmode_write acc_mode ≡ false)))
      × ((check_permission wronly acc_mode ≡ pos 0)
          ↔ ((fmode_write acc_mode ≡ true) × (fmode_read acc_mode ≡ false)))
unfolding check_permission
check_permission_iff acc_mode = ground arith
