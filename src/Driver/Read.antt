-- ===== src/Driver/Read.antt =====
-- sw/hero-driver/carfield/carfield_fops.c and sw/hero-driver/occamy/occamy_fops.c: `card_read`,
-- `check_permission` and `card_open`, whose text is the same in both.
pub mod Laws
use hero_tools.Prelude.{
  ℕ, ◌+◌, ◌-◌, ◌%◌, ◌^◌, Bool, true, false, ◌&&◌, not, Option, none, some, ltb, ◌==◌, if◌then◌else◌,
  bit_and,
}
use hero_tools.Prelude.Int.{ℤ, pos, negsuc, neg, efault, eperm}
use hero_tools.Prelude.Bits.{add64, sub64, signed64, sign_extend}

-- What a call of `card_read` asks `copy_to_user` for: so many bytes from an offset of the buffer.
pub record Copy : Type 0 where
  pub offset : ℕ
  pub count : ℕ

-- The result, the new file position, and the copy. `copied` is what `copy_to_user` makes of it.
unfoldable pub card_read : (copied : Copy → Bool) → (buffer_size count f_pos : ℕ) → ℤ × ℕ × Copy
card_read copied buffer_size count f_pos =
    let max_size = sign_extend buffer_size in
    let n = if ltb max_size (add64 f_pos count) then sub64 max_size f_pos else count in
    let c : Copy = record { offset = f_pos; count = n } in
    if copied c then (signed64 n, add64 f_pos n, c) else (neg efault, f_pos, c)

abbrev pub rdwr : ℕ
rdwr = 0x11

abbrev pub rdonly : ℕ
rdonly = 0x01

abbrev pub wronly : ℕ
wronly = 0x10

-- `acc_mode & FMODE_READ`, `acc_mode & FMODE_WRITE`, with the values of Linux.
abbrev pub fmode_read : ℕ → Bool
fmode_read m = bit_and m 1 == 1

abbrev pub fmode_write : ℕ → Bool
fmode_write m = bit_and m 2 == 2

unfoldable pub check_permission : (dev_perm acc_mode : ℕ) → ℤ
check_permission dev_perm acc_mode =
    if dev_perm == rdwr
    then pos 0
    else if dev_perm == rdonly && (fmode_read acc_mode && not (fmode_write acc_mode))
    then pos 0
    else if dev_perm == wronly && (fmode_write acc_mode && not (fmode_read acc_mode))
    then pos 0
    else neg eperm

abbrev pub pdata_perm : ℕ
pdata_perm = rdwr

-- `filp->private_data` becomes the device, and the result is that of the permission check.
unfoldable pub card_open : {D : Type 0} → (cardev_data : D) → (f_mode : ℕ) → ℤ × D
card_open cardev_data f_mode = (check_permission pdata_perm f_mode, cardev_data)
