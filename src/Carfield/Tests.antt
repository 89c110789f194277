-- ===== src/Carfield/Tests.antt =====
-- Runs of the Carfield driver's file operations.
use hero_tools.Prelude.{ℕ, ◌+◌, ◌*◌, ◌≡◌, refl, true, none, some, [], ◌∷◌}
use hero_tools.Prelude.Int.{pos}
use hero_tools.Driver.{Kernel, SharedMem, IoctlArg, Vma}
use hero_tools.Driver.Buffers.{dma_alloc, device_address}
use hero_tools.Driver.Iommu.{map_pages, pin_failed, hero_iommu_region_add}
use hero_tools.Carfield.{
  Cardev, ioctl_dma_alloc, ioctl_mem_infos, ioctl_iommu_map, card_ioctl, dispatch, ioctl_alloc,
  ioctl_infos, ioctl_map, send_back,
}
use hero_tools.Carfield.MmapId
use hero_tools.Carfield.Regions.{Regions, lookup_region}

abbrev kernel : Kernel
kernel = record {
  copy_from_user = true;
  copy_to_user = true;
  kmalloc = true;
  order_base_2 = λ n. n;
  get_free_pages = λ order. 0x80000;
  virt_to_phys = λ v. v + 0x1000;
  get_user_pages_fast = λ start nr_pages. (pos nr_pages, λ i. 0x4000 + 4096 * i);
  remap_pfn_range = λ m. pos 0;
}

-- Sixteen pages from `n` on.
abbrev mem : ℕ → SharedMem
mem n = record { pbase = n; vbase = 0; size = 0x10000 }

abbrev regions : Regions
regions = record {
  idma_mem = mem 0x100000;
  soc_ctrl_mem = mem 0x200000;
  mboxes_mem = mem 0x300000;
  ctrl_regs_mem = mem 0x400000;
  gpio_mem = mem 0x500000;
  l2_intl_0_mem = mem 0x600000;
  l2_cont_0_mem = mem 0x700000;
  l2_intl_1_mem = mem 0x800000;
  l2_cont_1_mem = mem 0x900000;
  safety_island_mem = mem 0xa00000;
  integer_cluster_mem = mem 0xb00000;
  spatz_cluster_mem = mem 0xc00000;
  l3_mem = mem 0xd00000;
  pcie_axi_bar_mem = mem 0x0;
}

abbrev device : Cardev
device = record { regions = regions; test_head = []; iommu = record { calls = []; regions = [] } }

-- An argument that asks for a region or for a buffer of a page.
abbrev asking : (mmap_id : ℕ) → IoctlArg
asking mmap_id = record {
  size = 4096;
  result_phys_addr = 0;
  result_virt_addr = 0x7000;
  mmap_id = mmap_id;
}

abbrev vma : (mmap_id : ℕ) → Vma
vma mmap_id = record { vm_pgoff = mmap_id; vm_start = 0x10000; vm_end = 0x11000 }

-- The L3 memory, told and mapped.
infos_run :
    card_ioctl true kernel ioctl_mem_infos (asking MmapId.l3) device
    ≡ some (
      pos 0,
      some (record (asking MmapId.l3) { size = 0x10000; result_phys_addr = 0xd00000 }),
      device,
    )
unfolding card_ioctl dispatch ioctl_infos lookup_region send_back
infos_run = refl

abbrev listed : Cardev
listed = record device { test_head = record { pbase = 0x81000; vbase = 0x80000; size = 4096 } ∷ [] }

abbrev told : IoctlArg
told = record (asking 0) { result_phys_addr = 0x81000; result_virt_addr = 0x80000 }

alloc_run :
    card_ioctl true kernel ioctl_dma_alloc (asking 0) device ≡ some (pos 0, some told, listed)
unfolding card_ioctl dispatch ioctl_alloc dma_alloc device_address send_back
alloc_run = refl

unfoldable mapped : Cardev
unfolding card_ioctl dispatch ioctl_map hero_iommu_region_add pin_failed map_pages send_back
mapped = elim (card_ioctl true kernel ioctl_iommu_map (asking 0) device) [
  | none ↦ device
  | some (r, a, d) ↦ d
]

iommu_run :
    card_ioctl true kernel ioctl_iommu_map (asking 0) device
    ≡ some (pos 0, some (record (asking 0) { result_phys_addr = 0x80007000 }), mapped)
unfolding card_ioctl dispatch ioctl_map hero_iommu_region_add pin_failed map_pages send_back mapped
iommu_run = refl
