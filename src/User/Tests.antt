-- ===== src/User/Tests.antt =====
-- A process that takes a buffer and a region from the Carfield driver.
use hero_tools.Prelude.{
  ℕ, ◌+◌, ◌*◌, ◌/◌, ◌≡◌, refl, true, inl, inr, arith, none, some, Option-cases, [], ◌∷◌, ◌==◌,
  if◌then◌else◌,
}
use hero_tools.Prelude.Int.{pos, negsuc, is_nonzero}
use hero_tools.Prelude.Partial.{◌>>=◌}
use hero_tools.Driver.{Kernel, SharedMem, IoctlArg, Vma, page_size, page_align}
use hero_tools.Driver.Buffers.{dma_alloc, device_address, map_found, remap}
use hero_tools.Carfield.{
  Cardev, card_mmap, card_ioctl, dispatch, ioctl_alloc, ioctl_infos, send_back,
}
use hero_tools.Carfield.MmapId
use hero_tools.Carfield.Regions.{Regions, lookup_region, mmap_region}
use hero_tools.User.{
  Syscalls, align_up_page, driver_lookup_mem, driver_mmap, driver_lookup_mmap, hero_host_l3_malloc,
}
use hero_tools.User.Mapped.{
  Serves, IsMapped, hero_host_l3_malloc-IsMapped, driver_lookup_mmap-IsMapped,
}

abbrev kernel : Kernel
kernel = record {
  copy_from_user = true;
  copy_to_user = true;
  kmalloc = true;
  order_base_2 = λ n. n;
  get_free_pages = λ order. 0x80000;
  virt_to_phys = λ v. v + 0x1000;
  get_user_pages_fast = λ start nr_pages. (pos nr_pages, λ i. 0x4000 + 4096 * i);
  remap_pfn_range = λ m. pos 0;
}

-- Sixteen pages from `n` on.
abbrev mem : ℕ → SharedMem
mem n = record { pbase = n; vbase = 0; size = 0x10000 }

abbrev regions : Regions
regions = record {
  idma_mem = mem 0x100000;
  soc_ctrl_mem = mem 0x200000;
  mboxes_mem = mem 0x300000;
  ctrl_regs_mem = mem 0x400000;
  gpio_mem = mem 0x500000;
  l2_intl_0_mem = mem 0x600000;
  l2_cont_0_mem = mem 0x700000;
  l2_intl_1_mem = mem 0x800000;
  l2_cont_1_mem = mem 0x900000;
  safety_island_mem = mem 0xa00000;
  integer_cluster_mem = mem 0xb00000;
  spatz_cluster_mem = mem 0xc00000;
  l3_mem = mem 0xd00000;
  pcie_axi_bar_mem = mem 0x0;
}

abbrev device : Cardev
device = record { regions = regions; test_head = []; iommu = record { calls = []; regions = [] } }

-- An argument that asks for a region or for a buffer of a page.
abbrev asking : (mmap_id : ℕ) → IoctlArg
asking mmap_id = record {
  size = 4096;
  result_phys_addr = 0;
  result_virt_addr = 0x7000;
  mmap_id = mmap_id;
}

abbrev vma : (mmap_id : ℕ) → Vma
vma mmap_id = record { vm_pgoff = mmap_id; vm_start = 0x10000; vm_end = 0x11000 }

abbrev whole : (offset length : ℕ) → Vma
whole offset length = record {
  vm_pgoff = offset / page_size;
  vm_start = 0x10000;
  vm_end = 0x10000 + page_align length;
}

-- Linux passes the calls on, and maps at one address.
unfoldable os : Syscalls Cardev
os = record {
  ioctl = λ c arg dev. card_ioctl true kernel c arg dev >>= λ (r, back, dev'). elim back [
    | none ↦ some (negsuc 0, arg, dev')
    | some arg' ↦ some (r, arg', dev')
  ];
  mmap = λ length offset dev.
      if length == 0
      then some (none, dev)
      else (card_mmap kernel dev (whole offset length) >>= λ (r, m).
          some (if is_nonzero r then none else some 0x10000, dev));
}

os-Serves : Serves true kernel os
unfolding os
os-Serves = record {
  ioctl_served = λ c arg arg' dev dev' e. elim (Option-cases (card_ioctl true kernel c arg dev)) [
    | inl none_there ↦ absurd (ground arith)
    | inr ((r, none, d), there) ↦ absurd (ground arith)
    | inr ((r, some back, d), there) ↦ ground arith
  ];
  mmap_empty = λ offset res dev dev' e. ground arith;
  mmap_served = λ length offset res dev dev' e.
      elim (Option-cases (card_mmap kernel dev (whole offset length))) [
        | inl none_there ↦ absurd (ground arith)
        | inr ((r, m), there) ↦ (whole offset length, m, ground arith, refl, ground arith)
      ];
}

abbrev listed : Cardev
listed = record device { test_head = record { pbase = 0x81000; vbase = 0x80000; size = 4096 } ∷ [] }

l3_malloc_run : hero_host_l3_malloc os (asking 0) 100 device ≡ some (0x10000, some 0x81000, listed)
unfolding hero_host_l3_malloc driver_mmap align_up_page os card_ioctl dispatch ioctl_alloc dma_alloc
    device_address send_back card_mmap mmap_region map_found remap
l3_malloc_run = refl

hero_host_l3_malloc-IsMapped_example : IsMapped kernel 0x10000 0x81000
hero_host_l3_malloc-IsMapped_example =
    hero_host_l3_malloc-IsMapped true kernel os os-Serves (asking 0) device 100 0x10000 0x81000
      listed l3_malloc_run (omega arith)

lookup_run : driver_lookup_mmap os (asking 0) MmapId.l3 device ≡ some (pos 0, 0x10000, device)
unfolding driver_lookup_mmap driver_lookup_mem driver_mmap os card_ioctl dispatch ioctl_infos
    lookup_region send_back card_mmap mmap_region map_found remap
lookup_run = refl

l3_found : lookup_region regions MmapId.l3 ≡ some (mem 0xd00000)
unfolding lookup_region
l3_found = refl

driver_lookup_mmap-IsMapped_example : IsMapped kernel 0x10000 0xd00000
driver_lookup_mmap-IsMapped_example =
    driver_lookup_mmap-IsMapped true kernel os os-Serves (asking 0) device MmapId.l3 0x10000 (pos 0)
      device lookup_run (mem 0xd00000) l3_found (omega arith)
