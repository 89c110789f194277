-- ===== src/Driver/Iommu.antt =====
-- sw/hero-driver/common/hero_iommu.c: `hero_iommu_region_add`, for Linux 6.5 and later.
-- Before, the function only returns -1 (`linux_6_5` is false).
pub mod Laws
use hero_tools.Prelude.{
  ℕ, zero, suc, ◌+◌, ◌*◌, ◌/◌, ◌%◌, ◌^◌, Bool, ◌||◌, Option, none, some, List, [], ◌∷◌, ◌++◌, ◌==◌,
  ltb, if◌then◌else◌,
}
use hero_tools.Prelude.Int.{ℤ, pos, negsuc}
use hero_tools.Prelude.Bits.{add64, signed32, to_unsigned64}
use hero_tools.Driver.{Kernel, IommuRegion, page_size}

-- A call of `iommu_map`, of one page: the device's address and the physical one. Its result is ignored.
pub record MapCall : Type 0 where
  pub iova : ℕ
  pub phys : ℕ

-- `for (i = 0; i < nr_pages; i++) iommu_map(iommu_domain, iova + PAGE_SIZE * i, page_to_phys(pages[i]), …)`:
-- the rounds left, and `i`; the calls made, the latest first.
unfoldable pub map_pages : (iova : ℕ) (pages : ℕ → ℕ) → ℕ → ℕ → List MapCall → List MapCall
map_pages iova pages zero i calls = calls
map_pages iova pages (suc n) i calls =
    map_pages iova pages n (i + 1)
      (record { iova = add64 iova (page_size * i); phys = pages i } ∷ calls)

-- What was mapped in the device's IOMMU domain, and `iommu_region_list`.
pub record Iommu : Type 0 where
  pub calls : List MapCall
  pub regions : List IommuRegion

-- `ret < nr_pages` compares an `int` with an `unsigned long`: the `int` is converted.
unfoldable pub pin_failed : ℤ → ℕ → Bool
pin_failed ret nr_pages = ltb (to_unsigned64 ret) nr_pages || nr_pages == 0

-- `none` is the fault of an unchecked allocation. The result `nr_pages` is truncated to an `int`.
unfoldable pub hero_iommu_region_add :
    (linux_6_5 : Bool) → Kernel → (user_addr iova length : ℕ) → Iommu → Option (ℤ × Iommu)
hero_iommu_region_add linux_6_5 k user_addr iova length d =
    let nr_pages = length / page_size in
    let (ret, pages) = k.get_user_pages_fast user_addr nr_pages in
    let d' : Iommu = record {
      calls = map_pages iova pages nr_pages 0 d.calls;
      regions =
          d.regions ++ (record { user_addr = user_addr; length = length; iova = user_addr } ∷ []);
    } in
    if linux_6_5
    then (if pin_failed ret nr_pages
        then some (negsuc 0, d)
        else if k.kmalloc
        then some (signed32 (nr_pages % 2 ^ 32), d')
        else none)
    else some (negsuc 0, d)
