-- ===== src/Carfield.antt =====
-- sw/hero-driver/carfield: the file operations of the Carfield driver, `carfield_fops.c` with
-- `carfield.h` and `carfield_driver.h`.
pub mod MmapId
pub mod Regions
pub mod Laws
pub mod Probe
pub mod Load
mod Tests
use hero_tools.Prelude.{ℕ, ◌+◌, ◌%◌, ◌^◌, Bool, Option, none, some, List, ◌==◌, if◌then◌else◌}
use hero_tools.Prelude.Int.{ℤ, pos, negsuc, neg, efault, is_negative}
use hero_tools.Prelude.Partial.{◌>>=◌}
use hero_tools.Driver.{Kernel, SharedMem, IoctlArg, Vma, Mapping}
use hero_tools.Driver.Buffers.{dma_alloc, Found, latest, map_found}
use hero_tools.Driver.Iommu.{Iommu, hero_iommu_region_add}
use Regions.{lookup_region, mmap_region}

-- `struct cardev_private_data`, less the handles of Linux.
pub record Cardev : Type 0 where
  pub regions : Regions.Regions
  pub test_head : List SharedMem
  pub iommu : Iommu

-- The commands that `card_ioctl` knows, and any other number.
pub data Command : Type 0 where
  ioctl_dma_alloc ioctl_mem_infos ioctl_iommu_map other : Command

unfoldable pub card_mmap : Kernel → Cardev → Vma → Option (ℤ × Option Mapping)
card_mmap k dev vma = map_found k vma (mmap_region dev.regions (latest dev.test_head) vma.vm_pgoff)

-- The end of `card_ioctl`: the argument is copied back. What the caller sees of it is the option.
unfoldable pub send_back : Kernel → IoctlArg → Cardev → Option (ℤ × Option IoctlArg × Cardev)
send_back k arg dev =
    if k.copy_to_user then some (pos 0, some arg, dev) else some (neg efault, none, dev)

-- The address that the device sees instead of a user's: unused by the device's memories.
abbrev pub iova_of : ℕ → ℕ
iova_of virt = 0x80000000 + virt % 0x40000000

-- The case IOCTL_DMA_ALLOC.
unfoldable pub ioctl_alloc : Kernel → IoctlArg → Cardev → Option (ℤ × Option IoctlArg × Cardev)
ioctl_alloc k arg dev =
    dma_alloc k dev.regions.pcie_axi_bar_mem.pbase arg dev.test_head >>= λ (err, arg', bufs).
    if is_negative err
    then some (err, none, dev)
    else send_back k arg' (record dev { test_head = bufs })

-- The case IOCTL_IOMMU_MAP: the caller's `result_phys_addr` is overwritten.
unfoldable pub ioctl_map :
    (linux_6_5 : Bool) → Kernel → IoctlArg → Cardev → Option (ℤ × Option IoctlArg × Cardev)
ioctl_map linux_6_5 k arg dev =
    let arg' : IoctlArg = record arg { result_phys_addr = iova_of arg.result_virt_addr } in
    hero_iommu_region_add linux_6_5 k arg'.result_virt_addr arg'.result_phys_addr arg'.size
      dev.iommu
    >>= λ (err, d).
        if is_negative err
        then some (err, none, record dev { iommu = d })
        else send_back k arg' (record dev { iommu = d })

-- The case IOCTL_MEM_INFOS.
unfoldable pub ioctl_infos : Kernel → IoctlArg → Cardev → Option (ℤ × Option IoctlArg × Cardev)
ioctl_infos k arg dev = elim (lookup_region dev.regions arg.mmap_id) [
  | none ↦ some (negsuc 0, none, dev)
  | some m ↦ send_back k (record arg { size = m.size; result_phys_addr = m.pbase }) dev
]

unfoldable pub dispatch :
    (linux_6_5 : Bool)
    → Kernel
    → Command
    → IoctlArg
    → Cardev
    → Option (ℤ × Option IoctlArg × Cardev)
dispatch linux_6_5 k ioctl_dma_alloc arg dev = ioctl_alloc k arg dev
dispatch linux_6_5 k ioctl_iommu_map arg dev = ioctl_map linux_6_5 k arg dev
dispatch linux_6_5 k ioctl_mem_infos arg dev = ioctl_infos k arg dev
dispatch linux_6_5 k other arg dev = some (negsuc 0, none, dev)

unfoldable pub card_ioctl :
    (linux_6_5 : Bool)
    → Kernel
    → Command
    → IoctlArg
    → Cardev
    → Option (ℤ × Option IoctlArg × Cardev)
card_ioctl linux_6_5 k cmd arg dev =
    if k.copy_from_user then dispatch linux_6_5 k cmd arg dev else some (neg efault, none, dev)
