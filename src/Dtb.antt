-- ===== src/Dtb.antt =====
-- sw/hero-pcie-dts-driver/hero_pcie_dts.c, `bar_read_dtb`, with hero_pcie_dts.h: the device tree blob is
-- read from a window of the device's PCIe memory. The calls of Linux are a parameter (`Pci`).
pub mod Laws
pub mod Bind
mod Tests
use hero_tools.Prelude.{
  ℕ, zero, suc, ◌+◌, ◌*◌, ◌%◌, ◌^◌, Bool, Option, none, some, ltb, ◌==◌, if◌then◌else◌,
}
use hero_tools.Prelude.Int.{ℤ, pos, neg, enomem, einval}
use hero_tools.Prelude.Bits.{add64}
use hero_tools.Prelude.Memory.{write_byte}
use hero_tools.Prelude.Partial.{◌>>=◌}

abbrev pub dtb_offset : ℕ
dtb_offset = 0xd0000000

abbrev pub dtb_map_size : ℕ
dtb_map_size = 10240

pub record Pci : Type 0 where
  pub pci_resource_start : ℕ
  -- Whether the flags have IORESOURCE_MEM.
  pub is_mem : Bool
  -- The bytes of a window of `dtb_map_size` bytes, by their offset in it; `none` is NULL.
  pub ioremap : (start : ℕ) → Option (ℕ → ℕ)
  -- Whether the allocation of `dtb_map_size` zeros succeeds.
  pub kzalloc : Bool

-- `be32_to_cpu(ioread32(…))` on a little-endian host: four bytes, the highest first.
abbrev pub read_be32 : (ℕ → ℕ) → ℕ → ℕ
read_be32 map at = map at * 2 ^ 24 + map (at + 1) * 2 ^ 16 + map (at + 2) * 2 ^ 8 + map (at + 3)

-- The copy loop: the rounds left, and `i`. `none` is a store behind the allocation.
unfoldable pub copy_blob : (map : ℕ → ℕ) → ℕ → ℕ → (blob : ℕ → ℕ) → Option (ℕ → ℕ)
copy_blob map zero i blob = some blob
copy_blob map (suc n) i blob =
    let rest = copy_blob map n (i + 1) (write_byte blob i (map i)) in
    if ltb i dtb_map_size then rest else none

-- The result, and on success the blob and its size.
unfoldable pub bar_read_dtb : Pci → Option (ℤ × Option ((ℕ → ℕ) × ℕ))
bar_read_dtb pci =
    if pci.pci_resource_start == 0
    then some (neg einval, none)
    else (if pci.is_mem
        then elim (pci.ioremap (add64 pci.pci_resource_start dtb_offset)) [
          | none ↦ some (neg enomem, none)
          | some map ↦
              let copied = copy_blob map (read_be32 map 4) 0 (λ i. 0) >>= λ blob.
              some (pos 0, some (blob, read_be32 map 4)) in
              if read_be32 map 0 == 0xd00dfeed
              then (if pci.kzalloc then copied else some (neg enomem, none))
              else some (neg einval, none)
        ]
        else some (neg einval, none))
