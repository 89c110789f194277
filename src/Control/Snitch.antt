-- ===== src/Control/Snitch.antt =====
-- sw/libhero/src/occamy/snitch_cluster.c, with snitch_cluster.h: the programs on the registers.
pub mod Tlb
pub mod Order
use hero_tools.Prelude.{ℕ, ◌+◌, ◌*◌, ◌/◌, ◌%◌, ◌^◌, ◌-◌, ◌==◌, if◌then◌else◌, bit_and, bit_or}
use hero_tools.Control.{Hw, Bus, quad_ctrl, occ_soc_ctrl, clint, writew, readw, fence}

abbrev pub reset_n_offset : ℕ
reset_n_offset = 0x4

abbrev pub isolate_offset : ℕ
isolate_offset = 0x8

abbrev pub tlb_narrow_offset : ℕ
tlb_narrow_offset = 0x0800

abbrev pub tlb_wide_offset : ℕ
tlb_wide_offset = 0x1000

abbrev pub tlb_stride : ℕ
tlb_stride = 0x20

abbrev pub scratch_0_offset : ℕ
scratch_0_offset = 0x14

abbrev pub scratch_1_offset : ℕ
scratch_1_offset = 0x18

module _ {S : Type 0} (hw : Hw S) where
  -- The mask has one bit for each of the four directions.
  unfoldable pub occamy_set_isolation : (iso : ℕ) → Bus S → Bus S
  occamy_set_isolation iso bus =
      let mask = if iso == 0 then 0 else 15 in
      fence hw (writew hw mask quad_ctrl isolate_offset bus)

  unfoldable pub clint_set_irq : (irq : ℕ) → Bus S → Bus S
  clint_set_irq irq bus =
      let (val, bus') = readw hw clint 0 bus in writew hw (bit_or val irq) clint 0 bus'

  -- `~irq` on 32 bits is `2 ^ 32 - 1 - irq`.
  unfoldable pub clint_clear_irq : (irq : ℕ) → Bus S → Bus S
  clint_clear_irq irq bus =
      let (val, bus') = readw hw clint 0 bus in
      writew hw (bit_and val (2 ^ 32 - 1 - irq)) clint 0 bus'

  -- One of the two tables of `occamy_tlb_write`: an entry of seven words.
  unfoldable pub tlb_write_table : (table idx addr_begin addr_end flags : ℕ) → Bus S → Bus S
  tlb_write_table table idx addr_begin addr_end flags bus =
      let first = addr_begin / 2 ^ 12 in
      let last = addr_end / 2 ^ 12 in
      let entry = table + tlb_stride * idx in
      let bus = writew hw (first % 2 ^ 32) quad_ctrl (entry + 0x00) bus in
      let bus = writew hw (first / 2 ^ 32 % 2 ^ 32) quad_ctrl (entry + 0x04) bus in
      let bus = writew hw (last % 2 ^ 32) quad_ctrl (entry + 0x08) bus in
      let bus = writew hw (last / 2 ^ 32 % 2 ^ 32) quad_ctrl (entry + 0x0c) bus in
      let bus = writew hw (first % 2 ^ 32) quad_ctrl (entry + 0x10) bus in
      let bus = writew hw (first / 2 ^ 32 % 2 ^ 32) quad_ctrl (entry + 0x14) bus in
      writew hw flags quad_ctrl (entry + 0x18) bus

  unfoldable pub occamy_tlb_write : (idx addr_begin addr_end flags : ℕ) → Bus S → Bus S
  occamy_tlb_write idx addr_begin addr_end flags bus =
      tlb_write_table tlb_wide_offset idx addr_begin addr_end flags
        (tlb_write_table tlb_narrow_offset idx addr_begin addr_end flags bus)

  unfoldable pub hero_dev_reset : Bus S → Bus S
  hero_dev_reset bus =
      let bus = writew hw 0 quad_ctrl reset_n_offset (occamy_set_isolation 1 bus) in
      let bus = fence hw (clint_clear_irq 0x3fe bus) in
      let bus = fence hw (writew hw 1 quad_ctrl reset_n_offset bus) in occamy_set_isolation 0 bus

  unfoldable pub hero_dev_exe_start : Bus S → Bus S
  hero_dev_exe_start bus =
      let bus = writew hw 0xc0000000 occ_soc_ctrl scratch_0_offset bus in
      let bus = fence hw (writew hw 0 occ_soc_ctrl scratch_1_offset bus) in clint_set_irq 0x3fe bus

  -- The part of `hero_dev_init` that sets up and enables the TLBs.
  unfoldable pub init_tlbs : Bus S → Bus S
  init_tlbs bus =
      let bus = occamy_tlb_write 0 0x01000000 0x0101ffff 0x3 bus in
      let bus = occamy_tlb_write 1 0x02000000 0x02000fff 0x3 bus in
      let bus = occamy_tlb_write 2 0x04000000 0x040fffff 0x1 bus in
      let bus = occamy_tlb_write 3 0x10000000 0x105fffff 0x1 bus in
      let bus = occamy_tlb_write 4 0xc0000000 0xffffffff 0x1 bus in
      let bus = occamy_tlb_write 5 0x71000000 0x71100000 0x1 bus in
      let bus = writew hw 1 quad_ctrl 0x18 bus in writew hw 1 quad_ctrl 0x1c bus
