-- ===== src/Hero64.antt =====
-- apps/omp/common/hero_64.h: the loads and stores of a 32-bit device core at 64-bit addresses. The assembly
-- is read as the accesses that it makes and the two control registers that it writes: `mstatus`, and
-- `mseg`, the upper half of the addresses of the core's accesses.
pub mod Laws
mod Tests
use hero_tools.Prelude.{
  ℕ, zero, suc, ◌+◌, ◌-◌, ◌*◌, ◌/◌, ◌%◌, ◌^◌, Bool, true, false, List, [], ◌∷◌, ◌++◌, bit_or,
}
use hero_tools.Prelude.Bits.{add64}
use hero_tools.Prelude.Memory.{Mem, write_byte}

-- An access: its address, its bytes, whether it stores, and `mstatus` at that moment.
pub record Access : Type 0 where
  pub address : ℕ
  pub bytes : ℕ
  pub stores : Bool
  pub mstatus : ℕ

pub record Core : Type 0 where
  pub memory : Mem
  pub mstatus : ℕ
  pub mseg : ℕ
  pub accesses : List Access

abbrev pub upper32 : ℕ → ℕ
upper32 dw = dw / 2 ^ 32

abbrev pub lower32 : ℕ → ℕ
lower32 dw = dw % 2 ^ 32

-- `n` bytes, the lowest first.
abbrev pub load_bytes : Mem → ℕ → ℕ → ℕ
load_bytes m a zero = 0
load_bytes m a (suc n) = m a + 256 * load_bytes m (a + 1) n

abbrev pub store_bytes : Mem → ℕ → (val : ℕ) → ℕ → Mem
store_bytes m a val zero = m
store_bytes m a val (suc n) = store_bytes (write_byte m a (val % 256)) (a + 1) (val / 256) n

-- "csrrci %[mstatus], 0x300, 3": the two lowest bits are cleared.
abbrev pub disable_mirq : Core → Core
disable_mirq c = record c { mstatus = c.mstatus - c.mstatus % 4 }

-- "csrw 0xbc0, zero"
abbrev pub clear_mseg : Core → Core
clear_mseg c = record c { mseg = 0 }

-- A pointer of 32 bits, under the upper half in `mseg`.
abbrev pub segmented : Core → (lower : ℕ) → ℕ
segmented c lower = c.mseg * 2 ^ 32 + lower

abbrev pub note : Access → Core → Core
note a c = record c { accesses = c.accesses ++ (a ∷ []) }

-- hero_load_uint32_noblock and those of 16 and 8 bits, by the bytes: the result, and `*val`.
unfoldable pub load_noblock : (n : ℕ) → (addr : ℕ) → Core → ℕ × ℕ × Core
load_noblock n addr c =
    let c1 = clear_mseg (disable_mirq c) in
    let a = segmented c1 (lower32 addr) in
    let c2 = note (record { address = a; bytes = n; stores = false; mstatus = c1.mstatus }) c1 in
    (0, load_bytes c2.memory a n, record (clear_mseg c2) { mstatus = c.mstatus })

-- hero_store_uint32_noblock and those of 16 and 8 bits: the result.
unfoldable pub store_noblock : (n : ℕ) → (addr val : ℕ) → Core → ℕ × Core
store_noblock n addr val c =
    let c1 = clear_mseg (disable_mirq c) in
    let a = segmented c1 (lower32 addr) in
    let c2 = note (record { address = a; bytes = n; stores = true; mstatus = c1.mstatus }) c1 in
    let c3 : Core = record c2 { memory = store_bytes c2.memory a val n } in
    (0, record (clear_mseg c3) { mstatus = c.mstatus })

-- hero_load_uint32 and those of 16 and 8 bits; the check of the result is empty.
unfoldable pub load : (n : ℕ) → (addr : ℕ) → Core → ℕ × Core
load n addr c = let (res, val, c1) = load_noblock n addr c in (val, c1)

-- hero_store_uint32 and those of 16 and 8 bits.
unfoldable pub store : (n : ℕ) → (addr val : ℕ) → Core → Core
store n addr val c = let (res, c1) = store_noblock n addr val c in c1

-- The two halves of the sum have no bit in common.
unfoldable pub hero_load_uint64 : (addr : ℕ) → Core → ℕ × Core
hero_load_uint64 addr c =
    let (lower, c1) = load 4 addr c in
    let (upper, c2) = load 4 (add64 addr 4) c1 in (upper * 2 ^ 32 + lower, c2)

unfoldable pub hero_store_uint64 : (addr val : ℕ) → Core → Core
hero_store_uint64 addr val c =
    let c1 = store 4 addr (lower32 val) c in store 4 (add64 addr 4) (upper32 val) c1

-- The result and `*val`.
unfoldable pub hero_load_uint64_noblock : (addr : ℕ) → Core → ℕ × ℕ × Core
hero_load_uint64_noblock addr c =
    let (res_lower, lower, c1) = load_noblock 4 addr c in
    let (res_upper, upper, c2) = load_noblock 4 (add64 addr 4) c1 in
    (bit_or res_lower res_upper, upper * 2 ^ 32 + lower, c2)

unfoldable pub hero_store_uint64_noblock : (addr val : ℕ) → Core → ℕ × Core
hero_store_uint64_noblock addr val c =
    let (res_lower, c1) = store_noblock 4 addr (lower32 val) c in
    let (res_upper, c2) = store_noblock 4 (add64 addr 4) (upper32 val) c1 in
    (bit_or res_lower res_upper, c2)
