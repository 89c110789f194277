-- ===== src/Dtb/Tests.antt =====
-- A blob of eight bytes, the magic number and the size.
use hero_tools.Prelude.{ℕ, ◌≤◌, ◌<◌, ◌≡◌, refl, arith, true, some, none, ltb, ◌==◌, if◌then◌else◌}
use hero_tools.Prelude.Int.{pos}
use hero_tools.Dtb.{Pci, dtb_map_size, bar_read_dtb}
use hero_tools.Dtb.Laws.{bar_read_dtb-copy}

abbrev window : ℕ → ℕ
window i =
    if i == 0
    then 0xd0
    else if i == 1
    then 0x0d
    else if i == 2
    then 0xfe
    else if i == 3
    then 0xed
    else if i == 7
    then 8
    else 0

abbrev pci : Pci
pci = record {
  pci_resource_start = 0x1000;
  is_mem = true;
  ioremap = λ start. some window;
  kzalloc = true;
}

bar_read_dtb-copy_example :
    (8 ≤ dtb_map_size
      → (blob : ℕ → ℕ) × (bar_read_dtb pci ≡ some (pos 0, some (blob, 8)))
        × ((j : ℕ) → blob j ≡ (if ltb j 8 then window j else 0)))
    × (dtb_map_size < 8 → bar_read_dtb pci ≡ none)
bar_read_dtb-copy_example = bar_read_dtb-copy pci window (omega arith) refl refl refl refl
