-- ===== src/Occamy.antt =====
-- sw/hero-driver/occamy: the file operations of the Occamy driver, `occamy_fops.c` with `occamy.h` and
-- `occamy_driver.h`. The operations that have the text of Carfield's are the same definitions.
pub mod MmapId
pub mod Regions
pub mod Laws
pub mod Probe
pub mod Load
mod Tests
use hero_tools.Prelude.{ℕ, Bool, Option, none, some, List, if◌then◌else◌}
use hero_tools.Prelude.Int.{ℤ, pos, negsuc, neg, efault, is_negative}
use hero_tools.Prelude.Partial.{◌>>=◌}
use hero_tools.Driver.{Kernel, SharedMem, IoctlArg, Vma, Mapping}
use hero_tools.Driver.Read
use hero_tools.Driver.Read.{Copy}
use hero_tools.Driver.Buffers.{dma_alloc, latest, map_found}
use Regions.{lookup_region, mmap_region}

-- `struct cardev_private_data`, less the handles of Linux.
pub record Cardev : Type 0 where
  pub regions : Regions.Regions
  pub test_head : List SharedMem

-- The commands that `card_ioctl` knows, and any other number.
pub data Command : Type 0 where
  ioctl_dma_alloc ioctl_mem_infos other : Command

unfoldable pub card_mmap : Kernel → Cardev → Vma → Option (ℤ × Option Mapping)
card_mmap k dev vma = map_found k vma (mmap_region dev.regions (latest dev.test_head) vma.vm_pgoff)

-- The end of `card_ioctl`: the argument is copied back. What the caller sees of it is the option.
unfoldable pub send_back : Kernel → IoctlArg → Cardev → Option (ℤ × Option IoctlArg × Cardev)
send_back k arg dev =
    if k.copy_to_user then some (pos 0, some arg, dev) else some (neg efault, none, dev)

-- The case IOCTL_DMA_ALLOC.
unfoldable pub ioctl_alloc : Kernel → IoctlArg → Cardev → Option (ℤ × Option IoctlArg × Cardev)
ioctl_alloc k arg dev =
    dma_alloc k dev.regions.pcie_axi_bar_mem.pbase arg dev.test_head >>= λ (err, arg', bufs).
    if is_negative err
    then some (err, none, dev)
    else send_back k arg' (record dev { test_head = bufs })

-- The case IOCTL_MEM_INFOS.
unfoldable pub ioctl_infos : Kernel → IoctlArg → Cardev → Option (ℤ × Option IoctlArg × Cardev)
ioctl_infos k arg dev = elim (lookup_region dev.regions arg.mmap_id) [
  | none ↦ some (negsuc 0, none, dev)
  | some m ↦ send_back k (record arg { size = m.size; result_phys_addr = m.pbase }) dev
]

unfoldable pub dispatch :
    Kernel → Command → IoctlArg → Cardev → Option (ℤ × Option IoctlArg × Cardev)
dispatch k ioctl_dma_alloc arg dev = ioctl_alloc k arg dev
dispatch k ioctl_mem_infos arg dev = ioctl_infos k arg dev
dispatch k other arg dev = some (negsuc 0, none, dev)

unfoldable pub card_ioctl :
    Kernel → Command → IoctlArg → Cardev → Option (ℤ × Option IoctlArg × Cardev)
card_ioctl k cmd arg dev =
    if k.copy_from_user then dispatch k cmd arg dev else some (neg efault, none, dev)

-- The text of these three is the same as in carfield_fops.c.
abbrev pub card_read : (copied : Copy → Bool) → (buffer_size count f_pos : ℕ) → ℤ × ℕ × Copy
card_read = Read.card_read

abbrev pub check_permission : (dev_perm acc_mode : ℕ) → ℤ
check_permission = Read.check_permission

abbrev pub card_open : (cardev_data : Cardev) → (f_mode : ℕ) → ℤ × Cardev
card_open = Read.card_open
