-- ===== src/Control/Init.antt =====
-- `hero_dev_init` of sw/libhero/src/carfield/spatz_cluster.c, sw/libhero/src/carfield/safety_island.c and
-- sw/libhero/src/occamy/snitch_cluster.c: the mailboxes are allocated and the device is told where they
-- are; and the `hero_dev_munmap` of the last two, which frees them.
pub mod Laws
mod Tests
use hero_tools.Prelude.{ℕ, ◌+◌, ◌%◌, ◌^◌, Option, none, some, ◌==◌, if◌then◌else◌}
use hero_tools.Prelude.Int.{ℤ, pos}
use hero_tools.Prelude.Partial.{◌>>=◌}
use hero_tools.DevHeap.{O1Heap, hero_dev_l3_malloc}
use hero_tools.DevHeap.Mboxes.{Device, hero_dev_alloc_mboxes, hero_dev_free_mboxes}
use hero_tools.Control.{Hw, Bus, ctrl_regs, occ_soc_ctrl, writew}
use hero_tools.Control.Snitch.{init_tlbs}

-- `struct l3_layout` of snitch_cluster.h
pub record L3Layout : Type 0 where
  pub a2h_rb : ℕ
  pub a2h_mbox : ℕ
  pub h2a_mbox : ℕ
  pub heap : ℕ

abbrev pub scratch_2_offset : ℕ
scratch_2_offset = 0x1c

-- `sizeof(struct l3_layout)`
abbrev pub l3_layout_bytes : ℕ
l3_layout_bytes = 16

module _ {S : Type 0} (hw : Hw S) (o : O1Heap) where
  -- The text of the two Carfield programs is the same. The result of the allocation is ignored.
  unfoldable pub carfield_hero_dev_init : Device o → Bus S → Option (ℤ × Device o × Bus S)
  carfield_hero_dev_init dev bus = hero_dev_alloc_mboxes o dev >>= λ (ignored, dev').
      let bus1 = writew hw (dev'.mboxes.h2a.p_addr % 2 ^ 32) ctrl_regs 0x0 bus in
      let bus2 = writew hw (dev'.mboxes.a2h.p_addr % 2 ^ 32) ctrl_regs 0x4 bus1 in
      some (pos 0, dev', bus2)

  -- The layout is stored through the pointer, a fault at NULL: it is the last component of the result,
  -- with the pointer.
  unfoldable pub snitch_hero_dev_init :
      Device o → Bus S → Option (ℤ × Device o × Bus S × (ℕ × L3Layout))
  snitch_hero_dev_init dev bus = hero_dev_alloc_mboxes o dev >>= λ (ignored, dev1).
      hero_dev_l3_malloc o l3_layout_bytes dev1.heaps >>= λ ((mbox_ptrs, mbox_ptrs_phy), heaps).
      let dev2 : Device o = record dev1 { heaps = heaps } in
      let layout : L3Layout = record {
        h2a_mbox = dev1.mboxes.h2a.p_addr % 2 ^ 32;
        a2h_mbox = dev1.mboxes.a2h.p_addr % 2 ^ 32;
        a2h_rb = dev1.mboxes.rb.p_addr % 2 ^ 32;
        heap = dev1.heaps.l3.heap_start_phy % 2 ^ 32;
      } in
      let bus1 = writew hw (mbox_ptrs_phy % 2 ^ 32) occ_soc_ctrl scratch_2_offset bus in
      if mbox_ptrs == 0 then none else some (pos 0, dev2, init_tlbs hw bus1, (mbox_ptrs, layout))

  -- The source returns no value.
  unfoldable pub freeing_hero_dev_munmap : Device o → Option (Device o)
  freeing_hero_dev_munmap dev = hero_dev_free_mboxes o dev >>= λ (ignored, dev'). some dev'
