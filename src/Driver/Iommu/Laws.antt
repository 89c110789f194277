-- ===== src/Driver/Iommu/Laws.antt =====
-- What `hero_iommu_region_add` leaves in the IOMMU domain and in the region list.
use hero_tools.Prelude.{
  ℕ, zero, suc, ◌+◌, ◌*◌, ◌/◌, ◌^◌, ◌≤◌, ◌<◌, ◌≡◌, refl, ◌∙◌, ap, Bool, true, false, some, List, [],
  ◌∷◌, ◌++◌, arith,
}
use hero_tools.Prelude.Int.{ℤ, pos, negsuc, is_negative}
use hero_tools.Prelude.Bits.{add64}
use hero_tools.Driver.{Kernel, IommuRegion, page_size}
use hero_tools.Driver.Iommu.{MapCall, map_pages, Iommu, pin_failed, hero_iommu_region_add}

-- The calls for so many pages, the latest first, without a wrap-around.
abbrev pub page_calls : (iova : ℕ) (pages : ℕ → ℕ) → ℕ → List MapCall
page_calls iova pages zero = []
page_calls iova pages (suc n) =
    record { iova = iova + page_size * n; phys = pages n } ∷ page_calls iova pages n

map_pages-calls :
    (iova : ℕ) (pages : ℕ → ℕ) (n i : ℕ) (calls : List MapCall)
    → iova + page_size * (i + n) ≤ 2 ^ 64
    → map_pages iova pages n i (page_calls iova pages i ++ calls)
      ≡ page_calls iova pages (i + n) ++ calls
unfolding map_pages
map_pages-calls iova pages zero i calls bound =
    let all : i ≡ i + 0 = omega arith in ap (λ k. page_calls iova pages k ++ calls) all
map_pages-calls iova pages (suc n) i calls bound =
    let cell : add64 iova (page_size * i) ≡ iova + page_size * i = omega arith in
    let next : suc i ≡ i + 1 = omega arith in
    let all : (i + 1) + n ≡ i + suc n = omega arith in
    ap
      (λ a.
        map_pages iova pages n (i + 1)
          (record { iova = a; phys = pages i } ∷ (page_calls iova pages i ++ calls)))
      cell
    ∙ ap (λ k. map_pages iova pages n (i + 1) (page_calls iova pages k ++ calls)) next
    ∙ map_pages-calls iova pages n (i + 1) calls (omega arith)
    ∙ ap (λ k. page_calls iova pages k ++ calls) all

-- The entry that a region leaves in the region list.
abbrev pub entry : (user_addr length : ℕ) → IommuRegion
entry user_addr length = record { user_addr = user_addr; length = length; iova = user_addr }

non_negative : (z : ℤ) → is_negative z ≡ false → (n : ℕ) × (z ≡ pos n)
non_negative (pos n) e = (n, refl)
non_negative (negsuc n) e = absurd (cc)

module _ (k : Kernel) (user_addr iova length : ℕ) (d : Iommu) where
  -- If `hero_iommu_region_add` returns no negative number, and `get_user_pages_fast` gave none,
  -- then all pages of the region were pinned, it has called `iommu_map` once for each, in order
  -- from `iova` on, with the address of the page pinned, and for nothing else, and the region
  -- list has the region at its end, with the user's address recorded as the device's. The region
  -- ends within the 64-bit addresses.
  pub region_add-calls :
      (linux_6_5 : Bool) (r : ℤ) (d' : Iommu)
      → hero_iommu_region_add linux_6_5 k user_addr iova length d ≡ some (r, d')
      → is_negative r ≡ false
      → is_negative (k.get_user_pages_fast user_addr (length / page_size)).0 ≡ false
      → iova + page_size * (length / page_size) ≤ 2 ^ 64
      → (pinned : ℕ) × ((k.get_user_pages_fast user_addr (length / page_size)).0 ≡ pos pinned)
        × (length / page_size ≤ pinned)
        × (d'.calls
            ≡ page_calls iova
                (k.get_user_pages_fast user_addr (length / page_size)).1
                (length / page_size)
              ++ d.calls)
        × (d'.regions ≡ d.regions ++ (entry user_addr length ∷ []))
  unfolding hero_iommu_region_add pin_failed
  region_add-calls linux_6_5 r d' e ok no_error bound =
      let nr_pages = length / page_size in
      let pages = (k.get_user_pages_fast user_addr nr_pages).1 in
      let from_0 : 0 + nr_pages ≡ nr_pages = omega arith in
      let called : map_pages iova pages nr_pages 0 d.calls
          ≡ page_calls iova pages nr_pages ++ d.calls =
        map_pages-calls iova pages nr_pages 0 d.calls (omega arith)
        ∙ ap (λ n. page_calls iova pages n ++ d.calls) from_0 in
      let (pinned, given) = non_negative (k.get_user_pages_fast user_addr nr_pages).0 no_error in
      (pinned, given, ground (arith, given), ground (arith, called), ground arith)

  -- An error of `get_user_pages_fast` is taken for a success: with a negative result, above
  -- -4097, `hero_iommu_region_add` returns and leaves what it would with a result of `nr_pages`.
  -- The length is below 2^63.
  pub region_add-pin_error :
      (err : ℕ) (pages : ℕ → ℕ)
      → k.get_user_pages_fast user_addr (length / page_size) ≡ (negsuc err, pages)
      → err < 4096
      → length < 2 ^ 63
      → hero_iommu_region_add true k user_addr iova length d
        ≡ hero_iommu_region_add true
            (record k { get_user_pages_fast = λ start nr_pages. (pos nr_pages, pages) })
            user_addr
            iova
            length
            d
  unfolding hero_iommu_region_add pin_failed
  region_add-pin_error err pages e errno small =
      let same : pin_failed (negsuc err) (length / page_size)
          ≡ pin_failed (pos (length / page_size)) (length / page_size) =
        ground arith in
      rw (e, same) refl
