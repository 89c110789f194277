-- ===== src/Dtb/Laws.antt =====
-- What `bar_read_dtb` copies.
use hero_tools.Prelude.{
  ℕ, zero, suc, ◌+◌, ◌≤◌, ◌<◌, ◌≡◌, ◌≢◌, refl, ◌∙◌, ap, true, Option, none, some, arith, ltb,
  ==_false, ==_iff, if◌then◌else◌,
}
use native.Mathlib.Decide.{dec_lt}
use hero_tools.Prelude.Int.{ℤ, pos}
use hero_tools.Prelude.Bits.{add64}
use hero_tools.Prelude.Memory.{write_byte}
use hero_tools.Prelude.Partial.{◌>>=◌}
use hero_tools.Dtb.{Pci, dtb_offset, dtb_map_size, read_be32, copy_blob, bar_read_dtb}

-- A loop that ends inside the allocation copies its rounds and nothing else.
copy_blob-inside :
    (map : ℕ → ℕ) (n i : ℕ) (blob : ℕ → ℕ)
    → i + n ≤ dtb_map_size
    → (blob' : ℕ → ℕ) × (copy_blob map n i blob ≡ some blob')
      × ((j : ℕ) → i ≤ j → j < i + n → blob' j ≡ map j)
      × ((j : ℕ) → j < i → blob' j ≡ blob j)
      × ((j : ℕ) → i + n ≤ j → blob' j ≡ blob j)
unfolding copy_blob
copy_blob-inside map zero i blob fits =
    (blob, refl, λ j lo hi. absurd (omega arith), λ j lo. refl, λ j hi. refl)
copy_blob-inside map (suc n) i blob fits =
    let (blob', e, inside, below, above) =
      copy_blob-inside map n (i + 1) (write_byte blob i (map i)) (omega arith) in
    (
      blob',
      ground arith,
      λ j lo hi. ground (arith, inside j, below j),
      λ j lo. ground (arith, below j (omega arith)),
      λ j hi. ground (arith, above j (omega arith)),
    )

copy_blob-beyond :
    (map : ℕ → ℕ) (n i : ℕ) (blob : ℕ → ℕ)
    → dtb_map_size < i + n
    → i ≤ dtb_map_size
    → copy_blob map n i blob ≡ none
unfolding copy_blob
copy_blob-beyond map zero i blob beyond start = absurd (omega arith)
copy_blob-beyond map (suc n) i blob beyond start = elim (dec_lt i dtb_map_size) [
  | yes before ↦ ground (
    arith,
    copy_blob-beyond map n (i + 1) (write_byte blob i (map i)) (omega arith) (omega arith),
  )
  | no at_end ↦ ground arith
]

-- What is done with the copied blob.
abbrev finish : ℕ → Option (ℕ → ℕ) → Option (ℤ × Option ((ℕ → ℕ) × ℕ))
finish size copied = copied >>= λ blob. some (pos 0, some (blob, size))

module _ (pci : Pci) (map : ℕ → ℕ) (started : pci.pci_resource_start ≢ 0) (mem : pci.is_mem ≡ true)
    (mapped : pci.ioremap (add64 pci.pci_resource_start dtb_offset) ≡ some map)
    (magic : read_be32 map 0 ≡ 0xd00dfeed) (allocated : pci.kzalloc ≡ true) where
  copies : bar_read_dtb pci ≡ finish (read_be32 map 4) (copy_blob map (read_be32 map 4) 0 (λ i. 0))
  unfolding bar_read_dtb
  copies =
      rw
        (
          ==_false pci.pci_resource_start 0 started,
          mem,
          mapped,
          (==_iff (read_be32 map 0) 0xd00dfeed).1 magic,
          allocated,
        )
        refl

  -- On a memory resource with a mapped window that starts with the magic number of a device tree,
  -- and with memory for the blob, `bar_read_dtb` returns 0 and a blob that holds the first bytes
  -- of the window, as many as the window says, and zeros behind, if they are 10240 at most; if
  -- they are more it stores behind its allocation.
  pub bar_read_dtb-copy :
      let size = read_be32 map 4 in
      (size ≤ dtb_map_size
        → (blob : ℕ → ℕ) × (bar_read_dtb pci ≡ some (pos 0, some (blob, size)))
          × ((j : ℕ) → blob j ≡ (if ltb j size then map j else 0)))
      × (dtb_map_size < size → bar_read_dtb pci ≡ none)
  bar_read_dtb-copy =
      let size : ℕ = read_be32 map 4 in
      (
        λ fits.
            let (blob, e, inside, below, above) =
              copy_blob-inside map size 0 (λ i. 0) (omega arith) in
            (
              blob,
              copies ∙ ap (finish size) e,
              λ j. elim (dec_lt j size) [
                | yes lo ↦ inside j (omega arith) (omega arith) ∙ ground arith
                | no hi ↦ above j (omega arith) ∙ ground arith
              ],
            ),
        λ beyond.
            copies
            ∙ ap (finish size) (copy_blob-beyond map size 0 (λ i. 0) (omega arith) (omega arith)),
      )
