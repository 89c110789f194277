-- ===== src/Control/Snitch/Tlb.antt =====
-- What `occamy_tlb_write` leaves in the registers of the quadrant's TLBs.
use hero_tools.Prelude.{
  ℕ, ◌+◌, ◌*◌, ◌/◌, ◌^◌, ◌<◌, ◌≡◌, ◌≢◌, ◌⊎◌, inl, inr, refl, ◌∙◌, Option, none, some, List, [], ◌∷◌,
  arith, ◌==◌, if◌then◌else◌,
}
use hero_tools.Prelude.Partial.{◌>>=◌}
use hero_tools.Control.{Access, Hw, Bus, quad_ctrl, wrote, saw, fenced, writew}
use hero_tools.Control.Snitch.{
  tlb_narrow_offset, tlb_wide_offset, tlb_stride, tlb_write_table, occamy_tlb_write,
}

-- The value last written to a register of the quadrant control block.
unfoldable pub last_write : ℕ → List Access → Option ℕ
last_write o [] = none
last_write o (wrote quad_ctrl offset value ∷ trace) =
    let rest = last_write o trace in if offset == o then some value else rest
last_write o (wrote other offset value ∷ trace) = last_write o trace
last_write o (saw block offset value ∷ trace) = last_write o trace
last_write o (fenced ∷ trace) = last_write o trace

-- A number of 64 bits in two registers, the lower half first.
unfoldable pub double : ℕ → List Access → Option ℕ
double o trace =
    last_write o trace >>= λ low. last_write (o + 4) trace >>= λ high. some (low + 2 ^ 32 * high)

-- An entry of a TLB: it translates the pages from `first` to `last` to those from `base` on.
pub record Entry : Type 0 where
  pub first : ℕ
  pub last : ℕ
  pub base : ℕ
  pub flags : ℕ

unfoldable pub entry_of : (table idx : ℕ) → List Access → Option Entry
entry_of table idx trace =
    let o = table + tlb_stride * idx in
    double o trace >>= λ first. double (o + 0x08) trace >>= λ last.
    double (o + 0x10) trace >>= λ base. last_write (o + 0x18) trace >>= λ flags.
    some (record { first = first; last = last; base = base; flags = flags })

module _ {S : Type 0} (hw : Hw S) (addr_begin addr_end flags : ℕ) where
  -- Registers outside an entry's seven words keep their values.
  table-frame :
      (table idx o : ℕ) (bus : Bus S)
      → (o < table + tlb_stride * idx) ⊎ (table + tlb_stride * idx + 0x18 < o)
      → last_write o (tlb_write_table hw table idx addr_begin addr_end flags bus).trace
        ≡ last_write o bus.trace
  unfolding tlb_write_table writew last_write
  table-frame table idx o bus (inl below) = ground arith
  table-frame table idx o bus (inr above) = ground arith

  double-frame :
      (table idx o : ℕ) (bus : Bus S)
      → (o + 4 < table + tlb_stride * idx) ⊎ (table + tlb_stride * idx + 0x18 < o)
      → double o (tlb_write_table hw table idx addr_begin addr_end flags bus).trace
        ≡ double o bus.trace
  unfolding double
  double-frame table idx o bus apart =
      rw (table-frame table idx o bus (near apart), table-frame table idx (o + 4) bus (far apart))
        refl
    where
      near :
          (o + 4 < table + tlb_stride * idx) ⊎ (table + tlb_stride * idx + 0x18 < o)
          → (o < table + tlb_stride * idx) ⊎ (table + tlb_stride * idx + 0x18 < o)
      near (inl below) = inl (omega arith)
      near (inr above) = inr above

      far :
          (o + 4 < table + tlb_stride * idx) ⊎ (table + tlb_stride * idx + 0x18 < o)
          → (o + 4 < table + tlb_stride * idx) ⊎ (table + tlb_stride * idx + 0x18 < o + 4)
      far (inl below) = inl below
      far (inr above) = inr (omega arith)

  -- Entries outside the one written are as before.
  entry-frame :
      (table idx table' idx' : ℕ) (bus : Bus S)
      → (table' + tlb_stride * idx' + 0x18 < table + tlb_stride * idx)
        ⊎ (table + tlb_stride * idx + 0x18 < table' + tlb_stride * idx')
      → entry_of table' idx' (tlb_write_table hw table idx addr_begin addr_end flags bus).trace
        ≡ entry_of table' idx' bus.trace
  unfolding entry_of
  entry-frame table idx table' idx' bus apart =
      let o = table' + tlb_stride * idx' in
      rw
        (
          double-frame table idx o bus (ground arith),
          double-frame table idx (o + 0x08) bus (ground arith),
          double-frame table idx (o + 0x10) bus (ground arith),
          table-frame table idx (o + 0x18) bus (ground arith),
        )
        refl

  -- The entry written holds the range, its two page numbers in full.
  entry-written :
      (table idx : ℕ) (bus : Bus S)
      → addr_begin < 2 ^ 64
      → addr_end < 2 ^ 64
      → entry_of table idx (tlb_write_table hw table idx addr_begin addr_end flags bus).trace
        ≡ some (record {
          first = addr_begin / 2 ^ 12;
          last = addr_end / 2 ^ 12;
          base = addr_begin / 2 ^ 12;
          flags = flags;
        })
  unfolding entry_of double tlb_write_table writew last_write
  entry-written table idx bus begin_fits end_fits = ground arith

  -- `occamy_tlb_write` puts the range into the entry of that index of the narrow and of the wide
  -- TLB, so that reading its registers gives the page numbers in full, and leaves every other
  -- entry of both, of an index below 64, as it was. The addresses have 64 bits, and the index is
  -- below 64, where the narrow TLB's registers end.
  occamy_tlb_write-entries :
      (idx : ℕ) (bus : Bus S)
      → addr_begin < 2 ^ 64
      → addr_end < 2 ^ 64
      → idx < 64
      → let trace' = (occamy_tlb_write hw idx addr_begin addr_end flags bus).trace in
        let written : Option Entry = some (record {
          first = addr_begin / 2 ^ 12;
          last = addr_end / 2 ^ 12;
          base = addr_begin / 2 ^ 12;
          flags = flags;
        }) in
        (entry_of tlb_narrow_offset idx trace' ≡ written)
        × (entry_of tlb_wide_offset idx trace' ≡ written)
        × ((other : ℕ)
            → other < 64
            → other ≢ idx
            → (entry_of tlb_narrow_offset other trace' ≡ entry_of tlb_narrow_offset other bus.trace)
              × (entry_of tlb_wide_offset other trace' ≡ entry_of tlb_wide_offset other bus.trace))
  unfolding occamy_tlb_write
  occamy_tlb_write-entries idx bus begin_fits end_fits small =
      let bus1 = tlb_write_table hw tlb_narrow_offset idx addr_begin addr_end flags bus in
      (
        entry-frame tlb_wide_offset idx tlb_narrow_offset idx bus1 (inl (omega arith))
            ∙ entry-written tlb_narrow_offset idx bus begin_fits end_fits,
        entry-written tlb_wide_offset idx bus1 begin_fits end_fits,
        λ other other_small differs. (
          entry-frame tlb_wide_offset idx tlb_narrow_offset other bus1 (inl (omega arith))
              ∙ entry-frame tlb_narrow_offset idx tlb_narrow_offset other bus (ground arith),
          entry-frame tlb_wide_offset idx tlb_wide_offset other bus1 (ground arith)
              ∙ entry-frame tlb_narrow_offset idx tlb_wide_offset other bus (inr (omega arith)),
        ),
      )
