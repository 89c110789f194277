-- ===== src/Control/SafetyIsland.antt =====
-- sw/libhero/src/carfield/safety_island.c, with safety_island.h: the programs on the registers.
pub mod Laws
use hero_tools.Prelude.{ℕ, Option, some}
use hero_tools.Prelude.Partial.{◌>>=◌}
use hero_tools.Control.{Hw, Bus, soc_ctrl, safety_island, writew, fence, set_isolate}

abbrev pub rst_offset : ℕ
rst_offset = 0x28

abbrev pub isolate_offset : ℕ
isolate_offset = 0x40

abbrev pub isolate_status_offset : ℕ
isolate_status_offset = 0x58

abbrev pub clk_en_offset : ℕ
clk_en_offset = 0x70

abbrev pub fetch_enable_offset : ℕ
fetch_enable_offset = 0xb8

abbrev pub boot_addr_offset : ℕ
boot_addr_offset = 0xcc

abbrev pub island_boot_addr_offset : ℕ
island_boot_addr_offset = 0x00200000

module _ {S : Type 0} (hw : Hw S) where
  -- Clock off, reset, de-reset and clock on.
  unfoldable pub cycle : Bus S → Bus S
  cycle bus =
      let bus = fence hw (writew hw 0 soc_ctrl clk_en_offset bus) in
      let bus = fence hw (writew hw 1 soc_ctrl rst_offset bus) in
      let bus = fence hw (writew hw 0 soc_ctrl rst_offset bus) in
      fence hw (writew hw 1 soc_ctrl clk_en_offset bus)

  -- The end of `hero_dev_exe_start`: the boot address, and fetching enabled.
  unfoldable pub start_island : Bus S → Bus S
  start_island bus =
      let bus = writew hw 0x60010080 soc_ctrl boot_addr_offset bus in
      let bus = fence hw (writew hw 0x60010080 safety_island island_boot_addr_offset bus) in
      writew hw 1 soc_ctrl fetch_enable_offset bus

-- `fuel` bounds the reads of each polling loop.
module _ {S : Type 0} (hw : Hw S) (fuel : ℕ) where
  unfoldable pub car_set_isolate : (status : ℕ) → Bus S → Option (Bus S)
  car_set_isolate status bus = set_isolate hw isolate_offset isolate_status_offset fuel status bus

  unfoldable pub hero_dev_reset : Bus S → Option (Bus S)
  hero_dev_reset bus = car_set_isolate 1 bus >>= λ bus.
      let bus = fence hw (writew hw 0 soc_ctrl fetch_enable_offset bus) in
      car_set_isolate 0 (cycle hw bus)

  unfoldable pub hero_dev_exe_start : Bus S → Option (Bus S)
  hero_dev_exe_start bus =
      (car_set_isolate 1 bus >>= λ bus. car_set_isolate 0 (cycle hw bus)) >>= λ bus.
      some (start_island hw bus)
