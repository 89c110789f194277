-- ===== src/Control/Spatz.antt =====
-- sw/libhero/src/carfield/spatz_cluster.c, with spatz_cluster.h: the programs on the registers.
pub mod Mbox
pub mod Laws
use hero_tools.Prelude.{ℕ, ◌+◌, Option, some}
use hero_tools.Prelude.Partial.{◌>>=◌}
use hero_tools.Control.Spatz.Mbox
use hero_tools.Control.{
  Hw, Bus, soc_ctrl, mboxes, ctrl_regs, spatz_cluster, writew, fence, set_isolate,
}

abbrev pub rst_offset : ℕ
rst_offset = 0x34

abbrev pub isolate_offset : ℕ
isolate_offset = 0x4c

abbrev pub isolate_status_offset : ℕ
isolate_status_offset = 0x64

abbrev pub clk_en_offset : ℕ
clk_en_offset = 0x7c

abbrev pub boot_control_offset : ℕ
boot_control_offset = 0x20000 + 0x58

module _ {S : Type 0} (hw : Hw S) where
  unfoldable pub disable_irqs : Bus S → Bus S
  disable_irqs bus =
      let bus = writew hw 0 mboxes Mbox.snd_en_0 bus in
      let bus = writew hw 1 mboxes Mbox.snd_clr_0 bus in
      let bus = writew hw 1 mboxes Mbox.rcv_clr_0 bus in
      let bus = writew hw 0 mboxes Mbox.snd_en_1 bus in
      let bus = writew hw 1 mboxes Mbox.snd_clr_1 bus in writew hw 1 mboxes Mbox.rcv_clr_1 bus

  -- Reset, de-reset and clock.
  unfoldable pub reset_and_clock : Bus S → Bus S
  reset_and_clock bus =
      let bus = fence hw (writew hw 1 soc_ctrl rst_offset bus) in
      let bus = fence hw (writew hw 0 soc_ctrl rst_offset bus) in
      fence hw (writew hw 1 soc_ctrl clk_en_offset bus)

  -- The end of `hero_dev_exe_start`: the boot address, and the interrupts that start the cores.
  unfoldable pub start_spatz : Bus S → Bus S
  start_spatz bus =
      let bus = fence hw (writew hw 0x78000000 spatz_cluster boot_control_offset bus) in
      let bus = writew hw 1 mboxes Mbox.snd_en_0 bus in
      let bus = writew hw 1 mboxes Mbox.snd_set_0 bus in
      let bus = writew hw 1 mboxes Mbox.snd_en_1 bus in writew hw 1 mboxes Mbox.snd_set_1 bus

-- `fuel` bounds the reads of each polling loop.
module _ {S : Type 0} (hw : Hw S) (fuel : ℕ) where
  unfoldable pub car_set_isolate : (status : ℕ) → Bus S → Option (Bus S)
  car_set_isolate status bus = set_isolate hw isolate_offset isolate_status_offset fuel status bus

  unfoldable pub hero_dev_reset : Bus S → Option (Bus S)
  hero_dev_reset bus = car_set_isolate 1 bus >>= λ bus.
      let bus = fence hw (writew hw 0 soc_ctrl clk_en_offset (fence hw bus)) in
      car_set_isolate 0 (reset_and_clock hw (disable_irqs hw bus))

  -- The reset that starts `hero_dev_exe_start` and ends `hero_dev_munmap`.
  unfoldable pub reset_spatz : Bus S → Option (Bus S)
  reset_spatz bus = car_set_isolate 1 bus >>= λ bus.
      car_set_isolate 0 (reset_and_clock hw (fence hw (writew hw 0 soc_ctrl clk_en_offset bus)))

  unfoldable pub hero_dev_exe_start : Bus S → Option (Bus S)
  hero_dev_exe_start bus = reset_spatz bus >>= λ bus. some (start_spatz hw bus)

  -- The accesses of `hero_dev_munmap`; the source returns no value.
  unfoldable pub hero_dev_munmap : Bus S → Option (Bus S)
  hero_dev_munmap bus = reset_spatz bus
