-- ===== src/Carfield/Laws.antt =====
-- What a process can rely on when it asks the Carfield driver where a region lies and maps it.
use hero_tools.Prelude.{◌≡◌, ◌∙◌, ap, inl, inr, Bool, some, [], ◌∷◌, ◌++◌, arith, Option-cases}
use hero_tools.Prelude.Int.{pos}
use hero_tools.Driver.{Kernel, SharedMem, IoctlArg, Vma}
use hero_tools.Driver.Buffers.{
  mapped_at, map_found-region, dma_alloc, dma_alloc-some, new_buffer, map_found, latest,
  latest-append, region,
}
use hero_tools.Carfield.{
  Cardev, ioctl_dma_alloc, ioctl_mem_infos, card_mmap, card_ioctl, dispatch, ioctl_alloc,
  ioctl_infos, send_back,
}
use hero_tools.Carfield.MmapId
use hero_tools.Carfield.Regions.{lookup_region, mmap_region, mmap_region-some, mmap_region-dma}

card_mmap-region :
    (k : Kernel) (dev : Cardev) (vma : Vma) (m : SharedMem)
    → mmap_region dev.regions (latest dev.test_head) vma.vm_pgoff ≡ region m
    → card_mmap k dev vma
      ≡ some (k.remap_pfn_range (mapped_at vma m.pbase), some (mapped_at vma m.pbase))
unfolding card_mmap
card_mmap-region k dev vma m e = ap (map_found k vma) e ∙ map_found-region k vma m

module _ (linux_6_5 : Bool) (k : Kernel) (dev : Cardev) (arg : IoctlArg) where
  -- What a successful IOCTL_MEM_INFOS tells of a number is the region of that number.
  pub infos-lookup :
      (arg' : IoctlArg) (dev' : Cardev)
      → card_ioctl linux_6_5 k ioctl_mem_infos arg dev ≡ some (pos 0, some arg', dev')
      → (m : SharedMem) × (lookup_region dev.regions arg.mmap_id ≡ some m)
        × (arg'.size ≡ m.size)
        × (arg'.result_phys_addr ≡ m.pbase)
        × (dev' ≡ dev)
  unfolding card_ioctl dispatch ioctl_infos send_back
  infos-lookup arg' dev' e = elim (Option-cases (lookup_region dev.regions arg.mmap_id)) [
    | inl none_there ↦ absurd (ground arith)
    | inr (m, there) ↦ (m, there, ground arith, ground arith, ground arith)
  ]

  -- After an IOCTL_MEM_INFOS of the Carfield driver that returns 0, a mapping of the same number
  -- maps the whole range of the vma to the page of the physical address that the ioctl told, and
  -- returns what Linux makes of that mapping.
  pub mmap-mem_infos :
      (arg' : IoctlArg) (dev' : Cardev) (vma : Vma)
      → card_ioctl linux_6_5 k ioctl_mem_infos arg dev ≡ some (pos 0, some arg', dev')
      → vma.vm_pgoff ≡ arg.mmap_id
      → card_mmap k dev' vma
        ≡ some (
          k.remap_pfn_range (mapped_at vma arg'.result_phys_addr),
          some (mapped_at vma arg'.result_phys_addr),
        )
  mmap-mem_infos arg' dev' vma e same =
      let (m, there, _, told, kept) = infos-lookup arg' dev' e in
      rw (kept, told)
        (card_mmap-region k dev vma m (
          ap (mmap_region dev.regions (latest dev.test_head)) same
          ∙ mmap_region-some dev.regions (latest dev.test_head) arg.mmap_id m there))

  -- A successful IOCTL_DMA_ALLOC appends the buffer that it tells of.
  alloc-append :
      (arg' : IoctlArg) (dev' : Cardev)
      → card_ioctl linux_6_5 k ioctl_dma_alloc arg dev ≡ some (pos 0, some arg', dev')
      → let b = new_buffer k dev.regions.pcie_axi_bar_mem.pbase arg in
        (dev' ≡ record dev { test_head = dev.test_head ++ (b ∷ []) })
        × (arg'.result_phys_addr ≡ b.pbase)
  unfolding card_ioctl dispatch ioctl_alloc send_back
  alloc-append arg' dev' e =
      elim (Option-cases (dma_alloc k dev.regions.pcie_axi_bar_mem.pbase arg dev.test_head)) [
        | inl none_there ↦ absurd (ground arith)
        | inr ((err, a, bufs), there) ↦
            ground
              (arith, dma_alloc-some k dev.regions.pcie_axi_bar_mem.pbase arg dev.test_head there)
      ]

  -- After an IOCTL_DMA_ALLOC of the Carfield driver that returns 0, a mapping of the DMA buffers'
  -- number maps the whole range of the vma to the page of the physical address that the ioctl
  -- told, and returns what Linux makes of that mapping.
  pub mmap-dma_alloc :
      (arg' : IoctlArg) (dev' : Cardev) (vma : Vma)
      → card_ioctl linux_6_5 k ioctl_dma_alloc arg dev ≡ some (pos 0, some arg', dev')
      → vma.vm_pgoff ≡ MmapId.dma_bufs
      → card_mmap k dev' vma
        ≡ some (
          k.remap_pfn_range (mapped_at vma arg'.result_phys_addr),
          some (mapped_at vma arg'.result_phys_addr),
        )
  mmap-dma_alloc arg' dev' vma e same =
      let b = new_buffer k dev.regions.pcie_axi_bar_mem.pbase arg in
      let (listed, told) = alloc-append arg' dev' e in
      rw (listed, told)
        (card_mmap-region k (record dev { test_head = dev.test_head ++ (b ∷ []) }) vma b
          (ap (mmap_region dev.regions (latest (dev.test_head ++ (b ∷ [])))) same
            ∙ mmap_region-dma dev.regions (latest (dev.test_head ++ (b ∷ [])))
            ∙ latest-append dev.test_head b))
