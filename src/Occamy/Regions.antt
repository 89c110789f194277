-- ===== src/Occamy/Regions.antt =====
-- The memory regions of an Occamy device, `struct cardev_private_data` of occamy.h, and the two switches
-- over their numbers: the macro PTR_TO_DEVDATA_REGION of occamy_driver.h, for the ioctl, and the switch
-- of `card_mmap`.
use hero_tools.Prelude.{ℕ, ◌≡◌, refl, arith, Option, none, some, ◌==◌, if◌then◌else◌}
use hero_tools.Occamy.MmapId
use hero_tools.Driver.{SharedMem}
use hero_tools.Driver.Buffers.{Found, region, unknown}

pub record Regions : Type 0 where
  pub soc_ctrl_mem : SharedMem
  pub quadrant_ctrl_mem : SharedMem
  pub clint_mem : SharedMem
  pub snitch_cluster_mem : SharedMem
  pub spm_wide_mem : SharedMem
  pub l3_mem : SharedMem
  pub pcie_axi_bar_mem : SharedMem

-- PTR_TO_DEVDATA_REGION; `none` is NULL.
unfoldable pub lookup_region : Regions → ℕ → Option SharedMem
lookup_region r x =
    if x == MmapId.soc_ctrl
    then some r.soc_ctrl_mem
    else if x == MmapId.quadrant_ctrl
    then some r.quadrant_ctrl_mem
    else if x == MmapId.clint
    then some r.clint_mem
    else if x == MmapId.snitch_cluster
    then some r.snitch_cluster_mem
    else if x == MmapId.scratchpad_wide
    then some r.spm_wide_mem
    else if x == MmapId.l3
    then some r.l3_mem
    else none

-- The switch of `card_mmap`, given what stands for the latest DMA buffer.
unfoldable pub mmap_region : Regions → (latest : Found) → ℕ → Found
mmap_region r latest x =
    if x == MmapId.soc_ctrl
    then region r.soc_ctrl_mem
    else if x == MmapId.quadrant_ctrl
    then region r.quadrant_ctrl_mem
    else if x == MmapId.clint
    then region r.clint_mem
    else if x == MmapId.snitch_cluster
    then region r.snitch_cluster_mem
    else if x == MmapId.scratchpad_wide
    then region r.spm_wide_mem
    else if x == MmapId.l3
    then region r.l3_mem
    else if x == MmapId.dma_bufs
    then latest
    else unknown

-- The switches of `card_mmap` and of PTR_TO_DEVDATA_REGION in the Occamy driver agree on every
-- number: it is known to both or to neither, and names the same region; only the number of the DMA
-- buffers is the mapping's alone.
occamy_mmap_region-lookup_region :
    (r : Regions) (latest : Found) (x : ℕ)
    → mmap_region r latest x ≡ (
        if x == MmapId.dma_bufs
        then latest
        else elim (lookup_region r x) [ none ↦ unknown | some m ↦ region m ])
unfolding mmap_region lookup_region
occamy_mmap_region-lookup_region r latest x = ground arith

pub mmap_region-some :
    (r : Regions) (latest : Found) (x : ℕ) (m : SharedMem)
    → lookup_region r x ≡ some m
    → mmap_region r latest x ≡ region m
unfolding lookup_region mmap_region
mmap_region-some r latest x m e = ground arith

pub mmap_region-dma : (r : Regions) (latest : Found) → mmap_region r latest MmapId.dma_bufs ≡ latest
unfolding mmap_region
mmap_region-dma r latest = refl
