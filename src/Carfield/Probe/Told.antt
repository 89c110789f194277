-- ===== src/Carfield/Probe/Told.antt =====
-- What the file operations tell of a device that was probed.
use hero_tools.Prelude.{
  ℕ, ◌≡◌, ◌≢◌, inl, inr, refl, sym, ◌∙◌, ap, Bool, false, Option, none, some, List, [], ◌∷◌, arith,
  ◌==◌, if◌then◌else◌, Option-cases, Bool-cases,
}
use mathlib.Core.Path.{subst}
use hero_tools.Prelude.Int.{ℤ, pos}
use hero_tools.Driver.{Kernel, SharedMem, IoctlArg}
use hero_tools.Driver.Probe.{Probing, fresh, probe_nodes, probe_node}
use hero_tools.Driver.Probe.Laws.{
  IsBacked, empty, AreDistinct, AllOther, AreEmpty, probe_nodes-AreBacked, probe_l3-AreBacked,
}
use hero_tools.Carfield.{Cardev, card_ioctl, ioctl_mem_infos}
use hero_tools.Carfield.Laws.{infos-lookup}
use hero_tools.Carfield.MmapId
use hero_tools.Carfield.Regions.{Regions, lookup_region}
use hero_tools.Carfield.Probe.{
  Bus, Held, Bound, probe_early, probe_late, wake, finish, card_platform_driver_probe,
}
use hero_tools.Carfield.Probe.Fields.{Field, name, same, same_eq, same_refl}

-- The regions of the device's data, as the file operations find them.
abbrev pub regions_of : Probing Field → Regions
regions_of p = record {
  idma_mem = p.region Field.idma;
  soc_ctrl_mem = p.region Field.soc_ctrl;
  mboxes_mem = p.region Field.mboxes;
  ctrl_regs_mem = p.region Field.ctrl_regs;
  gpio_mem = p.region Field.gpio;
  l2_intl_0_mem = p.region Field.l2_intl_0;
  l2_cont_0_mem = p.region Field.l2_cont_0;
  l2_intl_1_mem = p.region Field.l2_intl_1;
  l2_cont_1_mem = p.region Field.l2_cont_1;
  safety_island_mem = p.region Field.safety_island;
  integer_cluster_mem = p.region Field.integer_cluster;
  spatz_cluster_mem = p.region Field.spatz_cluster;
  l3_mem = p.region Field.l3;
  pcie_axi_bar_mem = p.region Field.pcie_axi_bar;
}

-- The field that a number stands for.
abbrev pub field_at : ℕ → Option Field
field_at x =
    if x == MmapId.soc_ctrl
    then some Field.soc_ctrl
    else if x == MmapId.mboxes
    then some Field.mboxes
    else if x == MmapId.l3
    then some Field.l3
    else if x == MmapId.ctrl_regs
    then some Field.ctrl_regs
    else if x == MmapId.l2_intl_0
    then some Field.l2_intl_0
    else if x == MmapId.l2_cont_0
    then some Field.l2_cont_0
    else if x == MmapId.l2_intl_1
    then some Field.l2_intl_1
    else if x == MmapId.l2_cont_1
    then some Field.l2_cont_1
    else if x == MmapId.idma
    then some Field.idma
    else if x == MmapId.safety_island
    then some Field.safety_island
    else if x == MmapId.integer_cluster
    then some Field.integer_cluster
    else if x == MmapId.spatz_cluster
    then some Field.spatz_cluster
    else none

lookup-field_at :
    (p : Probing Field) (x : ℕ)
    → lookup_region (regions_of p) x
      ≡ elim (field_at x) [ none ↦ none | some f ↦ some (p.region f) ]
unfolding lookup_region
lookup-field_at p x = ground arith

field_at-l3 : (x : ℕ) → x ≢ MmapId.l3 → field_at x ≢ some Field.l3
field_at-l3 x other = ground arith

-- A probe that got its memory has filled the device's data field by field.
pub probe-probing :
    (linux_6_5 : Bool) (b : Bus) (id : ℕ) (h : Held) (ret : ℤ) (d : Bound) (h' : Held)
    → card_platform_driver_probe linux_6_5 b id h ≡ some (ret, some d, h')
    → d.probing ≡ probe_late b
unfolding card_platform_driver_probe finish
probe-probing linux_6_5 b id h ret d h' e = elim (Option-cases (wake b id (probe_early b) h)) [
  | inl stuck ↦ absurd (ground arith)
  | inr (h1, woken) ↦ ground arith
]

-- All fields but the L3 region, as they are probed.
abbrev front : List Field
front =
    Field.soc_ctrl ∷ Field.mboxes ∷ Field.idma ∷ Field.pcie_axi_bar ∷ Field.ctrl_regs ∷ Field.gpio
    ∷ Field.safety_island ∷ Field.integer_cluster ∷ Field.spatz_cluster ∷ Field.l2_intl_0
    ∷ Field.l2_cont_0 ∷ Field.l2_intl_1 ∷ Field.l2_cont_1 ∷ []

-- The L3 region comes last.
probe_late-front :
    (b : Bus)
    → let p = probe_nodes same Field.l3 b.tree name front (fresh Field) in
      probe_late b ≡ (probe_node same Field.l3 b.tree Field.l3 (name Field.l3) p).1
unfolding probe_late probe_early probe_nodes
probe_late-front b = refl

front_distinct : AreDistinct same front
front_distinct = ground arith

front_not_l3 : AllOther same Field.l3 front
front_not_l3 = ground arith

front_empty : AreEmpty same front (fresh Field)
front_empty = ground arith

probe_late-AreBacked :
    (b : Bus) (g : Field)
    → same Field.l3 g ≡ false
    → IsBacked b.tree (name g) ((probe_late b).region g)
probe_late-AreBacked b = rw (probe_late-front b) (
    probe_l3-AreBacked same Field.l3 b.tree name same_eq same_refl
      (probe_nodes same Field.l3 b.tree name front (fresh Field))
      (probe_nodes-AreBacked same Field.l3 b.tree name same_eq same_refl front (fresh Field)
        front_distinct front_not_l3 front_empty λ g other. empty refl refl))

-- What an IOCTL_MEM_INFOS that returns 0 tells of a probed Carfield device, of a number other than
-- that of the L3 region: the number stands for a field of the device's data, and the size and the
-- physical address are 0, or those of the node in the device tree that goes with the field, which
-- was mapped without an error and does not read 0xbadcab1e.
pub probe-mem_infos :
    (linux_6_5 : Bool) (b : Bus) (id : ℕ) (h : Held) (ret : ℤ) (d : Bound) (h' : Held) (k : Kernel)
    (dev dev' : Cardev) (arg arg' : IoctlArg)
    → card_platform_driver_probe linux_6_5 b id h ≡ some (ret, some d, h')
    → dev.regions ≡ regions_of d.probing
    → card_ioctl linux_6_5 k ioctl_mem_infos arg dev ≡ some (pos 0, some arg', dev')
    → arg.mmap_id ≢ MmapId.l3
    → (f : Field) × (m : SharedMem) × (field_at arg.mmap_id ≡ some f)
      × IsBacked b.tree (name f) m
      × (arg'.size ≡ m.size)
      × (arg'.result_phys_addr ≡ m.pbase)
probe-mem_infos linux_6_5 b id h ret d h' k dev dev' arg arg' probed same_regions told other =
    let (m, there, size, phys, _) = infos-lookup linux_6_5 k dev arg arg' dev' told in
    let looked =
      sym (lookup-field_at d.probing arg.mmap_id)
      ∙ ap (λ r. lookup_region r arg.mmap_id) (sym same_regions)
      ∙ there in
    elim (Option-cases (field_at arg.mmap_id)) [
      | inl nowhere ↦ absurd (ground arith)
      | inr (f, at) ↦ (
        f,
        m,
        at,
        subst (IsBacked b.tree (name f)) (region_is f m at looked) (
            rw (probe-probing linux_6_5 b id h ret d h' probed)
              (probe_late-AreBacked b f (not_l3 f at))),
        size,
        phys,
      )
    ]
  where
    not_l3 : (f : Field) → field_at arg.mmap_id ≡ some f → same Field.l3 f ≡ false
    not_l3 f at = elim (Bool-cases (same Field.l3 f)) [
      | inl l3 ↦
          absurd
            (field_at-l3 arg.mmap_id other (at ∙ ap (λ g. some g) (sym (same_eq Field.l3 f l3))))
      | inr elsewhere ↦ elsewhere
    ]

    region_is :
        (f : Field) (m : SharedMem)
        → field_at arg.mmap_id ≡ some f
        → elim (field_at arg.mmap_id) [ none ↦ none | some g ↦ some (d.probing.region g) ] ≡ some m
        → d.probing.region f ≡ m
    region_is f m at looked = ground arith
