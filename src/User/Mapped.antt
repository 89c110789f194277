-- ===== src/User/Mapped.antt =====
-- What a process gets from the Carfield driver through the calls of driver.h.
use hero_tools.Prelude.{
  ℕ, ◌*◌, ◌/◌, ◌≡◌, ◌≢◌, refl, ◌∙◌, ap, sym, inl, inr, Bool, Option, none, some, arith,
  Option-cases,
}
use hero_tools.Prelude.Int.{ℤ, pos}
use hero_tools.Driver.{Kernel, SharedMem, IoctlArg, Vma, Mapping, page_size}
use hero_tools.Carfield.{Cardev, Command, ioctl_dma_alloc, ioctl_mem_infos, card_mmap, card_ioctl}
use hero_tools.Carfield.MmapId
use hero_tools.Carfield.Regions.{lookup_region}
use hero_tools.Driver.Buffers.{mapped_at}
use hero_tools.Carfield.Laws.{mmap-mem_infos, mmap-dma_alloc, infos-lookup}
use hero_tools.User.{
  align_up_page, Syscalls, driver_mmap, driver_lookup_mem, driver_lookup_mmap, hero_host_l3_malloc,
}

-- What Linux does with the system calls on the device file: a call that succeeds went to the driver
-- and succeeded there; a mapping of no bytes fails. A mapping hands the driver a range at the address that the process gets.
pub record Serves (linux_6_5 : Bool) (k : Kernel) (os : Syscalls Cardev) : Type 0 where
  pub ioctl_served :
      (c : Command) (arg arg' : IoctlArg) (dev dev' : Cardev)
      → os.ioctl c arg dev ≡ some (pos 0, arg', dev')
      → card_ioctl linux_6_5 k c arg dev ≡ some (pos 0, some arg', dev')
  pub mmap_empty :
      (offset res : ℕ) (dev dev' : Cardev) → os.mmap 0 offset dev ≢ some (some res, dev')
  pub mmap_served :
      (length offset res : ℕ) (dev dev' : Cardev)
      → os.mmap length offset dev ≡ some (some res, dev')
      → (vma : Vma) × (m : Option Mapping) × (vma.vm_start ≡ res)
        × (vma.vm_pgoff ≡ offset / page_size)
        × (card_mmap k dev vma ≡ some (pos 0, m))

-- The process sees, from `virt` on, the physical memory from the page of `phys` on: Linux accepted
-- such a mapping.
pub record IsMapped (k : Kernel) (virt phys : ℕ) : Type 0 where
  pub mapping : Mapping
  pub at_virt : mapping.start ≡ virt
  pub at_phys : mapping.pfn ≡ phys / page_size
  pub accepted : k.remap_pfn_range mapping ≡ pos 0

first_result : Option (ℤ × Option Mapping) → ℤ
first_result none = pos 0
first_result (some (r, m)) = r

accepted_as :
    (k : Kernel) (vma : Vma) (phys virt : ℕ) (m : Option Mapping) (r : Option (ℤ × Option Mapping))
    → vma.vm_start ≡ virt
    → r ≡ some (pos 0, m)
    → r ≡ some (k.remap_pfn_range (mapped_at vma phys), some (mapped_at vma phys))
    → IsMapped k virt phys
unfolding first_result
accepted_as k vma phys virt m r start served told = record {
  mapping = mapped_at vma phys;
  at_virt = start;
  at_phys = refl;
  accepted = ap first_result (sym told ∙ served);
}

module _ (linux_6_5 : Bool) (k : Kernel) (os : Syscalls Cardev) (serves : Serves linux_6_5 k os)
    (chunk : IoctlArg) (dev : Cardev) where
  mmap-call :
      (mmap_id length virt : ℕ) (dev' dev'' : Cardev) (err : ℤ)
      → driver_mmap os chunk mmap_id length dev' ≡ some (err, virt, dev'')
      → virt ≢ 0
      → os.mmap length (mmap_id * page_size) dev' ≡ some (some virt, dev'')
  unfolding driver_mmap
  mmap-call mmap_id length virt dev' dev'' err e real =
      elim (Option-cases (os.mmap length (mmap_id * page_size) dev')) [
        | inl none_there ↦ absurd (ground arith)
        | inr ((none, w), there) ↦ absurd (ground arith)
        | inr ((some res, w), there) ↦ there ∙ ground arith
      ]

  -- A range that the process got, where every mapping of its offset leads to `phys`.
  mapped_there :
      (mmap_id length virt phys : ℕ) (dev' dev'' : Cardev) (err : ℤ)
      → driver_mmap os chunk mmap_id length dev' ≡ some (err, virt, dev'')
      → virt ≢ 0
      → ((vma : Vma)
          → vma.vm_pgoff ≡ mmap_id
          → card_mmap k dev' vma
            ≡ some (k.remap_pfn_range (mapped_at vma phys), some (mapped_at vma phys)))
      → IsMapped k virt phys
  mapped_there mmap_id length virt phys dev' dev'' err e real leads =
      let got = mmap-call mmap_id length virt dev' dev'' err e real in
      let (vma, m, start, pgoff, served) =
        serves.mmap_served length (mmap_id * page_size) virt dev' dev'' got in
      accepted_as k vma phys virt m (card_mmap k dev' vma) start served
        (leads vma (pgoff ∙ (omega arith)))

  -- What a success of `hero_host_l3_malloc` called, and with what results.
  l3_malloc-calls :
      (size_b virt phys : ℕ) (dev' : Cardev)
      → hero_host_l3_malloc os chunk size_b dev ≡ some (virt, some phys, dev')
      → (chunk' : IoctlArg) × (w' : Cardev) × (err : ℤ) × (os.ioctl ioctl_dma_alloc
            (record chunk { size = align_up_page size_b })
            dev
          ≡ some (pos 0, chunk', w'))
        × (driver_mmap os chunk MmapId.dma_bufs size_b w' ≡ some (err, virt, dev'))
        × (chunk'.result_phys_addr ≡ phys)
  unfolding hero_host_l3_malloc
  l3_malloc-calls size_b virt phys dev' e =
      elim (Option-cases
        (os.ioctl ioctl_dma_alloc (record chunk { size = align_up_page size_b }) dev)) [
          | inl none_there ↦ absurd (ground arith)
          | inr ((err, chunk', w'), there) ↦
              elim (Option-cases (driver_mmap os chunk MmapId.dma_bufs size_b w')) [
                | inl none_there ↦ absurd (ground arith)
                | inr ((err', res, w''), mapped) ↦
                    (chunk', w', err', ground arith, ground arith, ground arith)
              ]
        ]

  -- What a lookup finds, the driver told.
  lookup-calls :
      (mmap_id : ℕ) (err : ℤ) (size_b p_addr : ℕ) (dev' : Cardev)
      → driver_lookup_mem os chunk mmap_id dev ≡ some (err, some (size_b, p_addr), dev')
      → (chunk' : IoctlArg) × (os.ioctl ioctl_mem_infos (record chunk { mmap_id = mmap_id }) dev
          ≡ some (pos 0, chunk', dev'))
        × (chunk'.size ≡ size_b)
        × (chunk'.result_phys_addr ≡ p_addr)
  unfolding driver_lookup_mem
  lookup-calls mmap_id err size_b p_addr dev' e =
      elim (Option-cases (os.ioctl ioctl_mem_infos (record chunk { mmap_id = mmap_id }) dev)) [
        | inl none_there ↦ absurd (ground arith)
        | inr ((r, chunk', w'), there) ↦ (chunk', ground arith, ground arith, ground arith)
      ]

  -- What `driver_lookup_mmap` maps, if not NULL, it looked up: a mapping of no bytes fails.
  lookup_mmap-calls :
      (mmap_id virt : ℕ) (err : ℤ) (dev' : Cardev)
      → driver_lookup_mmap os chunk mmap_id dev ≡ some (err, virt, dev')
      → virt ≢ 0
      → (chunk' : IoctlArg) × (w' : Cardev) × (os.ioctl ioctl_mem_infos
            (record chunk { mmap_id = mmap_id })
            dev
          ≡ some (pos 0, chunk', w'))
        × (driver_mmap os chunk mmap_id chunk'.size w' ≡ some (err, virt, dev'))
  unfolding driver_lookup_mmap
  lookup_mmap-calls mmap_id virt err dev' e real =
      elim (Option-cases (driver_lookup_mem os chunk mmap_id dev)) [
        | inl none_there ↦ absurd (ground arith)
        | inr ((r, none, w'), there) ↦ absurd (
            serves.mmap_empty (mmap_id * page_size) virt w' dev'
              (mmap-call mmap_id 0 virt w' dev' err (ground arith) real))
        | inr ((r, some (size_b, p_addr), w'), there) ↦
            let (chunk', told, size, addr) = lookup-calls mmap_id r size_b p_addr w' there in
            (chunk', w', told, ground arith)
      ]

  -- A buffer of `hero_host_l3_malloc`, if the address returned is not NULL, is mapped there:
  -- Linux accepted a mapping that leads that address to the page of the physical address told.
  -- System calls that succeed went to the Carfield driver and succeeded there, and a mapping of
  -- no bytes fails.
  pub hero_host_l3_malloc-IsMapped :
      (size_b virt phys : ℕ) (dev' : Cardev)
      → hero_host_l3_malloc os chunk size_b dev ≡ some (virt, some phys, dev')
      → virt ≢ 0
      → IsMapped k virt phys
  hero_host_l3_malloc-IsMapped size_b virt phys dev' e real =
      let (chunk', w', err, told, got, same) = l3_malloc-calls size_b virt phys dev' e in
      rw (sym same) (
        mapped_there MmapId.dma_bufs size_b virt chunk'.result_phys_addr w' dev' err got real
          (λ vma pgoff.
            mmap-dma_alloc linux_6_5 k dev (record chunk { size = align_up_page size_b }) chunk' w'
              vma
              (serves.ioctl_served ioctl_dma_alloc (record chunk { size = align_up_page size_b })
                chunk' dev w' told)
              pgoff))

  -- An address that `driver_lookup_mmap` returns, if it is not NULL, is mapped to the region of
  -- the number asked for: Linux accepted a mapping that leads that address to the page of the
  -- region's base. System calls that succeed went to the Carfield driver and succeeded there, and
  -- a mapping of no bytes fails.
  pub driver_lookup_mmap-IsMapped :
      (mmap_id virt : ℕ) (err : ℤ) (dev' : Cardev)
      → driver_lookup_mmap os chunk mmap_id dev ≡ some (err, virt, dev')
      → (m : SharedMem) → lookup_region dev.regions mmap_id ≡ some m
      → virt ≢ 0
      → IsMapped k virt m.pbase
  driver_lookup_mmap-IsMapped mmap_id virt err dev' e m there real =
      let (chunk', w', told, got) = lookup_mmap-calls mmap_id virt err dev' e real in
      let arg : IoctlArg = record chunk { mmap_id = mmap_id } in
      let served = serves.ioctl_served ioctl_mem_infos arg chunk' dev w' told in
      let (m', there', _, at_phys, _) = infos-lookup linux_6_5 k dev arg chunk' w' served in
      let same : chunk'.result_phys_addr ≡ m.pbase = ground arith in
      rw (sym same) (
        mapped_there mmap_id chunk'.size virt chunk'.result_phys_addr w' dev' err got real
          (λ vma pgoff. mmap-mem_infos linux_6_5 k dev arg chunk' w' vma served pgoff))
