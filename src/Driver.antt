-- ===== src/Driver.antt =====
-- sw/hero-driver: what the Carfield and the Occamy kernel drivers share: the structs of carfield.h and
-- occamy.h, and the calls of Linux that the file operations make. Linux is not part of the program, so
-- those calls are a parameter (`Kernel`).
pub mod Read
pub mod Buffers
pub mod Probe
pub mod Devices
pub mod Load
pub mod Iommu
mod Tests
use hero_tools.Prelude.{ℕ, ◌+◌, ◌-◌, ◌*◌, ◌/◌, ◌%◌, ◌^◌, Bool, Option, List}
use hero_tools.Prelude.Int.{ℤ}

-- `struct shared_mem`
pub record SharedMem : Type 0 where
  pub pbase : ℕ
  pub vbase : ℕ
  pub size : ℕ

-- `struct card_ioctl_arg`, and `struct driver_ioctl_arg` on the user's side
pub record IoctlArg : Type 0 where
  pub size : ℕ
  pub result_phys_addr : ℕ
  pub result_virt_addr : ℕ
  pub mmap_id : ℕ

-- The fields of `struct vm_area_struct` that the drivers read.
pub record Vma : Type 0 where
  pub vm_pgoff : ℕ
  pub vm_start : ℕ
  pub vm_end : ℕ

-- A call of `remap_pfn_range`: so many bytes at `start` of the caller lead to the frame `pfn` on.
pub record Mapping : Type 0 where
  pub start : ℕ
  pub pfn : ℕ
  pub bytes : ℕ

-- `struct hero_iommu_region`
pub record IommuRegion : Type 0 where
  pub user_addr : ℕ
  pub length : ℕ
  pub iova : ℕ

abbrev pub page_shift : ℕ
page_shift = 12

abbrev pub page_size : ℕ
page_size = 4096

-- `ALIGN(x, PAGE_SIZE)`: up to whole pages, on 64 bits.
abbrev pub page_align : ℕ → ℕ
page_align x = (x + page_size - 1) % 2 ^ 64 / page_size * page_size

-- The calls of Linux.
pub record Kernel : Type 0 where
  -- Whether the user's argument can be copied in, and out.
  pub copy_from_user : Bool
  pub copy_to_user : Bool
  -- Whether the small allocations that are not checked succeed.
  pub kmalloc : Bool
  pub order_base_2 : ℕ → ℕ
  -- `2 ^ order` pages; 0 is NULL.
  pub get_free_pages : (order : ℕ) → ℕ
  pub virt_to_phys : ℕ → ℕ
  -- The result, and what `page_to_phys` gives for each entry of the array then.
  pub get_user_pages_fast : (start nr_pages : ℕ) → ℤ × (ℕ → ℕ)
  pub remap_pfn_range : Mapping → ℤ
