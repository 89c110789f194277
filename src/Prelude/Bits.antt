-- ===== src/Prelude/Bits.antt =====
-- Words of 32 and 64 bits as native numbers, with their wrap-around.
use Prim.Native.Nat.{ℕ, ◌+◌, ◌-◌, ◌*◌, ◌%◌, ◌^◌}
use hero_tools.Prelude.Tests.{ltb, if◌then◌else◌}
use hero_tools.Prelude.Int.{ℤ, pos, negsuc}

abbrev pub add32 : ℕ → ℕ → ℕ
add32 a b = (a + b) % 2 ^ 32

abbrev pub mul32 : ℕ → ℕ → ℕ
mul32 a b = (a * b) % 2 ^ 32

abbrev pub add64 : ℕ → ℕ → ℕ
add64 a b = (a + b) % 2 ^ 64

-- `-` on ℕ stops at 0, so the modulus is added first.
abbrev pub sub64 : ℕ → ℕ → ℕ
sub64 a b = (a + 2 ^ 64 - b) % 2 ^ 64

-- A 64-bit pattern as the signed number that it stands for.
abbrev pub signed64 : ℕ → ℤ
signed64 w = if ltb w (2 ^ 63) then pos w else negsuc (2 ^ 64 - w - 1)

abbrev pub signed32 : ℕ → ℤ
signed32 w = if ltb w (2 ^ 31) then pos w else negsuc (2 ^ 32 - w - 1)

-- An `int`, given by its 32-bit pattern, widened to 64 bits.
abbrev pub sign_extend : ℕ → ℕ
sign_extend w = if ltb w (2 ^ 31) then w else w + (2 ^ 64 - 2 ^ 32)

-- An `int` converted to `unsigned long`.
abbrev pub to_unsigned64 : ℤ → ℕ
to_unsigned64 (pos n) = n
to_unsigned64 (negsuc n) = 2 ^ 64 - n - 1
