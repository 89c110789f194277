-- ===== src/User.antt =====
-- sw/libhero/src/common/driver.h: what a process asks of a device driver. The system calls go through
-- Linux, so they are a parameter (`Syscalls`), over a state `W` of the driver's side.
pub mod Mapped
mod Tests
use hero_tools.Prelude.{ℕ, ◌+◌, ◌-◌, ◌*◌, ◌/◌, ◌%◌, ◌^◌, Option, none, some, if◌then◌else◌}
use hero_tools.Prelude.Int.{ℤ, pos, neg, eio, is_nonzero}
use hero_tools.Prelude.Bits.{add32}
use hero_tools.Prelude.Partial.{◌>>=◌}
use hero_tools.Driver.{IoctlArg, page_size}
use hero_tools.Carfield.{Command, ioctl_dma_alloc, ioctl_mem_infos, ioctl_iommu_map}
use hero_tools.Carfield.MmapId

-- `none` is a fault on the driver's side.
pub record Syscalls (W : Type 0) : Type 0 where
  -- The result, and the argument as the call leaves it.
  pub ioctl : Command → IoctlArg → W → Option (ℤ × IoctlArg × W)
  -- `mmap` of a shared mapping; `none` inside is MAP_FAILED.
  pub mmap : (length offset : ℕ) → W → Option (Option ℕ × W)

-- `ALIGN_UP(size_b, 0x1000)` of an `unsigned`: the sum is taken on 32 bits.
unfoldable pub align_up_page : ℕ → ℕ
align_up_page size_b = add32 size_b 0xfff / 0x1000 * 0x1000

-- `chunk` is what the stack holds where the source leaves a field unset.
module _ {W : Type 0} (os : Syscalls W) (chunk : IoctlArg) where
  -- The result, and on success `*size_b` and `*p_addr`.
  unfoldable pub driver_lookup_mem : (mmap_id : ℕ) → W → Option (ℤ × Option (ℕ × ℕ) × W)
  driver_lookup_mem mmap_id w =
      os.ioctl ioctl_mem_infos (record chunk { mmap_id = mmap_id }) w >>= λ (err, chunk', w').
      if is_nonzero err
      then some (err, none, w')
      else some (err, some (chunk'.size, chunk'.result_phys_addr), w')

  -- The result and `*res`.
  unfoldable pub driver_mmap : (mmap_id length : ℕ) → W → Option (ℤ × ℕ × W)
  driver_mmap mmap_id length w = os.mmap length (mmap_id * page_size) w >>= λ (mapped, w').
      elim mapped [ none ↦ some (neg eio, 0, w') | some res ↦ some (pos 0, res, w') ]

  -- A failed lookup goes unnoticed: the length stays 0.
  unfoldable pub driver_lookup_mmap : (mmap_id : ℕ) → W → Option (ℤ × ℕ × W)
  driver_lookup_mmap mmap_id w = driver_lookup_mem mmap_id w >>= λ (err, found, w').
      let phy_len : ℕ = elim found [ none ↦ 0 | some (size_b, p_addr) ↦ size_b ] in
      driver_mmap mmap_id phy_len w'

  -- The user's address, 0 for NULL, and `*p_addr` where it is set.
  unfoldable pub hero_host_l3_malloc : (size_b : ℕ) → W → Option (ℕ × Option ℕ × W)
  hero_host_l3_malloc size_b w =
      os.ioctl ioctl_dma_alloc (record chunk { size = align_up_page size_b }) w
      >>= λ (err, chunk', w').
          if is_nonzero err
          then some (0, none, w')
          else (driver_mmap MmapId.dma_bufs size_b w' >>= λ (err', res, w'').
              some (res, some chunk'.result_phys_addr, w''))

  unfoldable pub hero_iommu_map_virt : (size_b v_addr : ℕ) → W → Option (ℕ × W)
  hero_iommu_map_virt size_b v_addr w =
      os.ioctl ioctl_iommu_map
        (record chunk { size = size_b; result_phys_addr = 0; result_virt_addr = v_addr }) w
      >>= λ (err, chunk', w').
          if is_nonzero err then some (0, w') else some (chunk'.result_phys_addr, w')

  unfoldable pub hero_iommu_map_virt_to_phys : (size_b v_addr p_addr : ℕ) → W → Option (ℤ × W)
  hero_iommu_map_virt_to_phys size_b v_addr p_addr w =
      os.ioctl ioctl_iommu_map
        (record chunk { size = size_b; result_phys_addr = p_addr; result_virt_addr = v_addr }) w
      >>= λ (err, chunk', w'). some (err, w')
