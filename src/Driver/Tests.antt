-- ===== src/Driver/Tests.antt =====
-- Runs of what the two drivers share.
use hero_tools.Prelude.{ℕ, ◌+◌, ◌*◌, ◌≤◌, ◌≡◌, refl, ◌++◌, true, arith, none, some, [], ◌∷◌}
use hero_tools.Prelude.Int.{pos, negsuc}
use hero_tools.Driver.{Kernel}
use hero_tools.Driver.Iommu.{Iommu, map_pages, pin_failed, hero_iommu_region_add}
use hero_tools.Driver.Iommu.Laws.{page_calls, entry, region_add-calls, region_add-pin_error}

abbrev kernel : Kernel
kernel = record {
  copy_from_user = true;
  copy_to_user = true;
  kmalloc = true;
  order_base_2 = λ n. n;
  get_free_pages = λ order. 0x80000;
  virt_to_phys = λ v. v + 0x1000;
  get_user_pages_fast = λ start nr_pages. (pos nr_pages, λ i. 0x4000 + 4096 * i);
  remap_pfn_range = λ m. pos 0;
}

abbrev iommu : Iommu
iommu = record { calls = []; regions = [] }

-- Two pages for the device's addresses from 0x80000000 on.
unfoldable mapped_twice : Iommu
unfolding hero_iommu_region_add pin_failed map_pages
mapped_twice = elim (hero_iommu_region_add true kernel 0x7000 0x80000000 8192 iommu) [
  | none ↦ iommu
  | some (r, d) ↦ d
]

region_add_run :
    hero_iommu_region_add true kernel 0x7000 0x80000000 8192 iommu ≡ some (pos 2, mapped_twice)
unfolding hero_iommu_region_add pin_failed map_pages mapped_twice
region_add_run = refl

region_add-calls_example :
    (pinned : ℕ) × (pos 2 ≡ pos pinned)
    × (2 ≤ pinned)
    × (mapped_twice.calls ≡ page_calls 0x80000000 (λ i. 0x4000 + 4096 * i) 2 ++ [])
    × (mapped_twice.regions ≡ [] ++ (entry 0x7000 8192 ∷ []))
region_add-calls_example =
    region_add-calls kernel 0x7000 0x80000000 8192 iommu true (pos 2) mapped_twice region_add_run
      refl refl (omega arith)

-- No page can be pinned: -EFAULT.
abbrev no_pin : Kernel
no_pin = record kernel { get_user_pages_fast = λ start nr_pages. (negsuc 13, λ i. 0) }

region_add-pin_error_example :
    hero_iommu_region_add true no_pin 0x7000 0x80000000 8192 iommu
    ≡ hero_iommu_region_add true
        (record no_pin { get_user_pages_fast = λ start nr_pages. (pos nr_pages, λ i. 0) })
        0x7000
        0x80000000
        8192
        iommu
region_add-pin_error_example =
    region_add-pin_error no_pin 0x7000 0x80000000 8192 iommu 13 (λ i. 0) refl (omega arith)
      (omega arith)
