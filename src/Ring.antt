-- ===== src/Ring.antt =====
-- sw/libhero/include/libhero/ringbuf.h: the software mailboxes' ring buffer.
-- The data array lies in a memory that both processors reach, each by its own addresses (`View`):
-- the device by `data_p`, the host by `data_v`. The four accessors differ in that base only, so the
-- bodies of the two puts and of the two gets are written once, over the base.
pub mod Copy
pub mod Queue
pub mod Contents
pub mod Refine
pub mod Traffic
mod Tests
use hero_tools.Prelude.{ℕ, zero, suc, ◌+◌, ◌%◌, ◌==◌, if◌then◌else◌, Option, none, some}
use hero_tools.Prelude.Int.{ℤ, pos, negsuc}
use hero_tools.Prelude.Bits.{add32, mul32}
use hero_tools.Prelude.Memory.{Mem, View, write_byte}

-- `struct ring_buf`
pub record RingBuf : Type 0 where
  pub head : ℕ
  pub size : ℕ
  pub tail : ℕ
  pub element_size : ℕ
  pub data_v : ℕ
  pub data_p : ℕ

-- The byte loops `for (uint32_t i = 0; i < rb->element_size; i++) dst[i] = src[i]`: the rounds left
-- and `i`. `i` stays below `element_size`, so it does not wrap.
unfoldable pub copy_bytes : View → (dst src : ℕ) → ℕ → ℕ → Mem → Mem
copy_bytes v dst src zero i m = m
copy_bytes v dst src (suc k) i m =
    copy_bytes v dst src k (i + 1) (write_byte m (v (dst + i)) (m (v (src + i))))

-- The offset of a slot: a 32-bit product.
abbrev pub slot_offset : RingBuf → ℕ → ℕ
slot_offset rb k = mul32 rb.element_size k

-- What a put computes before its test. The `%` is 32-bit; at `size == 0` it is undefined in C.
abbrev pub next_index : RingBuf → ℕ → ℕ
next_index rb k = add32 k 1 % rb.size

-- The body of the two puts, over the base of the data array.
unfoldable pub put_at : View → (base : ℕ) → RingBuf → (el : ℕ) → Mem → ℤ × RingBuf × Mem
put_at v base rb el m = if next_index rb rb.head == rb.tail then (negsuc 0, rb, m) else (
  pos 0,
  record rb { head = next_index rb rb.head },
  copy_bytes v (base + slot_offset rb rb.head) el rb.element_size 0 m,
)

-- The body of the two gets.
unfoldable pub get_at : View → (base : ℕ) → RingBuf → (el : ℕ) → Mem → ℤ × RingBuf × Mem
get_at v base rb el m = if rb.tail == rb.head then (negsuc 0, rb, m) else (
  pos 0,
  record rb { tail = next_index rb rb.tail },
  copy_bytes v el (base + slot_offset rb rb.tail) rb.element_size 0 m,
)

unfoldable pub rb_device_put : View → RingBuf → ℕ → Mem → ℤ × RingBuf × Mem
rb_device_put v rb = put_at v rb.data_p rb

unfoldable pub rb_host_get : View → RingBuf → ℕ → Mem → ℤ × RingBuf × Mem
rb_host_get v rb = get_at v rb.data_v rb

unfoldable pub rb_host_put : View → RingBuf → ℕ → Mem → ℤ × RingBuf × Mem
rb_host_put v rb = put_at v rb.data_v rb

unfoldable pub rb_device_get : View → RingBuf → ℕ → Mem → ℤ × RingBuf × Mem
rb_device_get v rb = get_at v rb.data_p rb

unfoldable pub rb_init : RingBuf → ℕ → ℕ → RingBuf
rb_init rb size element_size = record rb {
  tail = 0;
  head = 0;
  size = size;
  element_size = element_size;
}
