-- ===== src/Carfield/Regions.antt =====
-- The memory regions of a Carfield device, `struct cardev_private_data` of carfield.h, and the two
-- switches over their numbers: the macro PTR_TO_DEVDATA_REGION of carfield_driver.h, for the ioctl,
-- and the switch of `card_mmap`.
use hero_tools.Prelude.{ℕ, ◌≡◌, refl, arith, Option, none, some, ◌==◌, if◌then◌else◌}
use hero_tools.Carfield.MmapId
use hero_tools.Driver.{SharedMem}
use hero_tools.Driver.Buffers.{Found, region, unknown}

pub record Regions : Type 0 where
  pub idma_mem : SharedMem
  pub soc_ctrl_mem : SharedMem
  pub mboxes_mem : SharedMem
  pub ctrl_regs_mem : SharedMem
  pub gpio_mem : SharedMem
  pub l2_intl_0_mem : SharedMem
  pub l2_cont_0_mem : SharedMem
  pub l2_intl_1_mem : SharedMem
  pub l2_cont_1_mem : SharedMem
  pub safety_island_mem : SharedMem
  pub integer_cluster_mem : SharedMem
  pub spatz_cluster_mem : SharedMem
  pub l3_mem : SharedMem
  pub pcie_axi_bar_mem : SharedMem

-- PTR_TO_DEVDATA_REGION; `none` is NULL.
unfoldable pub lookup_region : Regions → ℕ → Option SharedMem
lookup_region r x =
    if x == MmapId.soc_ctrl
    then some r.soc_ctrl_mem
    else if x == MmapId.mboxes
    then some r.mboxes_mem
    else if x == MmapId.l3
    then some r.l3_mem
    else if x == MmapId.ctrl_regs
    then some r.ctrl_regs_mem
    else if x == MmapId.l2_intl_0
    then some r.l2_intl_0_mem
    else if x == MmapId.l2_cont_0
    then some r.l2_cont_0_mem
    else if x == MmapId.l2_intl_1
    then some r.l2_intl_1_mem
    else if x == MmapId.l2_cont_1
    then some r.l2_cont_1_mem
    else if x == MmapId.idma
    then some r.idma_mem
    else if x == MmapId.safety_island
    then some r.safety_island_mem
    else if x == MmapId.integer_cluster
    then some r.integer_cluster_mem
    else if x == MmapId.spatz_cluster
    then some r.spatz_cluster_mem
    else none

-- The switch of `card_mmap`, given what stands for the latest DMA buffer.
unfoldable pub mmap_region : Regions → (latest : Found) → ℕ → Found
mmap_region r latest x =
    if x == MmapId.soc_ctrl
    then region r.soc_ctrl_mem
    else if x == MmapId.mboxes
    then region r.mboxes_mem
    else if x == MmapId.l3
    then region r.l3_mem
    else if x == MmapId.ctrl_regs
    then region r.ctrl_regs_mem
    else if x == MmapId.l2_intl_0
    then region r.l2_intl_0_mem
    else if x == MmapId.l2_cont_0
    then region r.l2_cont_0_mem
    else if x == MmapId.l2_intl_1
    then region r.l2_intl_1_mem
    else if x == MmapId.l2_cont_1
    then region r.l2_cont_1_mem
    else if x == MmapId.spatz_cluster
    then region r.spatz_cluster_mem
    else if x == MmapId.integer_cluster
    then region r.integer_cluster_mem
    else if x == MmapId.safety_island
    then region r.safety_island_mem
    else if x == MmapId.idma
    then region r.idma_mem
    else if x == MmapId.dma_bufs
    then latest
    else unknown

-- The switches of `card_mmap` and of PTR_TO_DEVDATA_REGION in the Carfield driver agree on every
-- number: it is known to both or to neither, and names the same region; only the number of the DMA
-- buffers is the mapping's alone.
mmap_region-lookup_region :
    (r : Regions) (latest : Found) (x : ℕ)
    → mmap_region r latest x ≡ (
        if x == MmapId.dma_bufs
        then latest
        else elim (lookup_region r x) [ none ↦ unknown | some m ↦ region m ])
unfolding mmap_region lookup_region
mmap_region-lookup_region r latest x = ground arith

pub mmap_region-some :
    (r : Regions) (latest : Found) (x : ℕ) (m : SharedMem)
    → lookup_region r x ≡ some m
    → mmap_region r latest x ≡ region m
unfolding lookup_region mmap_region
mmap_region-some r latest x m e = ground arith

pub mmap_region-dma : (r : Regions) (latest : Found) → mmap_region r latest MmapId.dma_bufs ≡ latest
unfolding mmap_region
mmap_region-dma r latest = refl
