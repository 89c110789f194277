-- ===== src/Driver/Buffers.antt =====
-- The DMA buffers: the case IOCTL_DMA_ALLOC of `card_ioctl` in carfield_fops.c and occamy_fops.c, whose
-- text is the same in both but for the printing, and the mapping of a region by `card_mmap`.
use hero_tools.Prelude.{
  ℕ, ◌/◌, ◌%◌, ◌^◌, ◌≡◌, refl, false, arith, Option, none, some, List, [], ◌∷◌, ◌++◌, ◌==◌,
  if◌then◌else◌, get_last?, get_last?-append, ap,
}
use hero_tools.Prelude.Int.{ℤ, pos, neg, enomem, einval, is_negative}
use hero_tools.Prelude.Bits.{add64, sub64}
use hero_tools.Driver.{Kernel, SharedMem, IoctlArg, Vma, Mapping, page_size, page_align}

-- The device's address of a buffer: behind a PCIe endpoint the offset of its BAR is added.
-- `0xffffffff & pbase - 0x40000000` is `0xffffffff & (pbase - 0x40000000)`.
unfoldable pub device_address : (pcie_pbase phys : ℕ) → ℕ
device_address pcie_pbase phys =
    if pcie_pbase == 0 then phys else add64 phys (sub64 pcie_pbase 0x40000000 % 2 ^ 32)

-- The argument with the new buffer, and the list with it at its end; or -ENOMEM. `none` is the fault
-- of an unchecked `kmalloc`.
unfoldable pub dma_alloc :
    Kernel → (pcie_pbase : ℕ) → IoctlArg → List SharedMem → Option (ℤ × IoctlArg × List SharedMem)
dma_alloc k pcie_pbase arg bufs =
    let virt = k.get_free_pages (k.order_base_2 (page_align arg.size / page_size)) in
    let phys = device_address pcie_pbase (k.virt_to_phys virt) in
    let arg' : IoctlArg = record arg { result_virt_addr = virt; result_phys_addr = phys } in
    let buf : SharedMem = record { pbase = phys; vbase = virt; size = arg.size } in
    if virt == 0
    then some (neg enomem, arg, bufs)
    else if k.kmalloc
    then some (pos 0, arg', bufs ++ (buf ∷ []))
    else none

-- The end of `card_mmap`: the whole range of the vma is mapped to the region's start. A range larger
-- than the region is only reported.
unfoldable pub remap : Kernel → Vma → SharedMem → ℤ × Mapping
remap k vma r =
    let m : Mapping = record {
      start = vma.vm_start;
      pfn = r.pbase / page_size;
      bytes = sub64 vma.vm_end vma.vm_start;
    } in
    (k.remap_pfn_range m, m)

-- What `card_mmap` finds for a page offset: a region, no region at all, or, for the latest buffer of
-- an empty list, whatever lies beside the list head.
pub data Found : Type 0 where
  region : SharedMem → Found
  unknown : Found
  garbage : Found

-- `list_last_entry`
abbrev pub latest : List SharedMem → Found
latest bufs = elim (get_last? bufs) [ none ↦ garbage | some b ↦ region b ]

pub latest-append : (bufs : List SharedMem) (b : SharedMem) → latest (bufs ++ (b ∷ [])) ≡ region b
latest-append bufs b =
    ap (λ o. elim o [ none ↦ garbage | some b' ↦ region b' ]) (get_last?-append bufs b)

-- `card_mmap` behind its switch: -EINVAL on an unknown offset. `none` is undefined behaviour.
unfoldable pub map_found : Kernel → Vma → Found → Option (ℤ × Option Mapping)
map_found k vma (region r) = let (ret, m) = remap k vma r in some (ret, some m)
map_found k vma unknown = some (neg einval, none)
map_found k vma garbage = none

-- The buffer of a successful allocation, as the driver lists it and as it tells of it.
abbrev pub new_buffer : Kernel → (pcie_pbase : ℕ) → IoctlArg → SharedMem
new_buffer k pcie_pbase arg =
    let virt = k.get_free_pages (k.order_base_2 (page_align arg.size / page_size)) in
    record {
      pbase = device_address pcie_pbase (k.virt_to_phys virt);
      vbase = virt;
      size = arg.size;
    }

pub dma_alloc-some :
    (k : Kernel) (pcie_pbase : ℕ) (arg : IoctlArg) (bufs : List SharedMem) {r : ℤ} {arg' : IoctlArg}
    {bufs' : List SharedMem}
    → dma_alloc k pcie_pbase arg bufs ≡ some (r, arg', bufs')
    → is_negative r ≡ false
    → (bufs' ≡ bufs ++ (new_buffer k pcie_pbase arg ∷ []))
      × (arg'.result_phys_addr ≡ (new_buffer k pcie_pbase arg).pbase)
unfolding dma_alloc
dma_alloc-some k pcie_pbase arg bufs e ok = ground arith

-- The whole range of a vma, led to the frame of a physical address.
abbrev pub mapped_at : Vma → ℕ → Mapping
mapped_at vma phys = record {
  start = vma.vm_start;
  pfn = phys / page_size;
  bytes = sub64 vma.vm_end vma.vm_start;
}

pub map_found-region :
    (k : Kernel) (vma : Vma) (m : SharedMem)
    → map_found k vma (region m)
      ≡ some (k.remap_pfn_range (mapped_at vma m.pbase), some (mapped_at vma m.pbase))
unfolding map_found remap
map_found-region k vma m = refl
