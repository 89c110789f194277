-- ===== src/Driver/Probe.antt =====
-- sw/hero-driver/carfield/carfield_driver.c and sw/hero-driver/occamy/occamy_driver.c: `probe_node`, which
-- finds the memory region of a child node of the device tree and maps it, whose text is the same in both
-- but for one call. The device tree, the hardware and the calls of Linux are a parameter (`Tree`).
pub mod Laws
pub mod Buffer
use Prim.Native.String.{String}
use hero_tools.Prelude.{
  ℕ, ◌-◌, ◌^◌, Bool, true, false, Option, none, some, List, [], ◌∷◌, ◌++◌, leb, ◌==◌, if◌then◌else◌,
}
use hero_tools.Prelude.Int.{ℤ, negsuc}
use hero_tools.Prelude.Bits.{add32}
use hero_tools.Driver.{SharedMem}

-- The fields of `struct resource` that are read; `size` is what `resource_size` makes of it.
pub record Resource : Type 0 where
  pub start : ℕ
  pub size : ℕ

-- The node that a phandle "memory-region" leads to. `none` is an error of `of_address_to_resource`.
pub record Reserved : Type 0 where
  pub name : String
  pub resource : Option Resource

-- A child node. `resource` is what `of_address_to_resource`, whose result is not tested, leaves.
pub record DtNode : Type 0 where
  pub memory_region : Option Reserved
  pub resource : Resource

pub record Tree : Type 0 where
  -- `of_get_child_by_name`
  pub child : String → Option DtNode
  -- `devm_ioremap_resource` after the calls listed: an address, or an error as a pointer.
  pub ioremap : List Resource → Resource → ℕ
  -- The word at a mapped address.
  pub read32 : ℕ → ℕ
  -- The length of "%s: %px size = %x\n".
  pub sprintf : String → (pbase size : ℕ) → ℕ
  -- What an uninitialised `int` holds.
  pub uninitialised : ℤ

-- A line of the information buffer.
pub record Line : Type 0 where
  pub name : String
  pub pbase : ℕ
  pub size : ℕ

-- What probing changes in `struct cardev_private_data`, whose regions have the names `F`; `maps` lists
-- the calls of `devm_ioremap_resource`.
pub record Probing (F : Type 0) : Type 0 where
  pub region : F → SharedMem
  pub buffer : List Line
  pub buffer_size : ℕ
  pub maps : List Resource

-- `(struct shared_mem){0}`
abbrev pub null_mem : SharedMem
null_mem = record { pbase = 0; vbase = 0; size = 0 }

-- `IS_ERR`: the last 4095 addresses.
abbrev pub is_err : ℕ → Bool
is_err p = leb (2 ^ 64 - 4095) p

-- A device whose memory `devm_kzalloc` gave.
abbrev pub fresh : (F : Type 0) → Probing F
fresh F = record { region = λ f. null_mem; buffer = []; buffer_size = 0; maps = [] }

module _ {F : Type 0} (same : F → F → Bool) where
  abbrev pub set : F → SharedMem → Probing F → Probing F
  set f m p = record p { region = λ g. if same f g then m else p.region g }

abbrev pub mapping : {F : Type 0} → Resource → Probing F → Probing F
mapping r p = record p { maps = p.maps ++ (r ∷ []) }

module _ {F : Type 0} (same : F → F → Bool) (l3 : F) (t : Tree) where
  -- The line for `card_read`.
  unfoldable pub print : String → SharedMem → Probing F → Probing F
  print name m p = record p {
    buffer = p.buffer ++ (record { name = name; pbase = m.pbase; size = m.size } ∷ []);
    buffer_size = add32 p.buffer_size (t.sprintf name m.pbase m.size);
  }

  -- The reserved memory becomes the L3 region. False is the jump to `probe_node_error`.
  unfoldable pub claim_l3 : String → Resource → Probing F → Bool × Probing F
  claim_l3 name r p =
      let v = t.ioremap p.maps r in
      let m : SharedMem = record { pbase = r.start; vbase = v; size = r.size } in
      if v == 0
      then (false, set same l3 (record (p.region l3) { vbase = v }) (mapping r p))
      else (true, print name m (set same l3 m (mapping r p)))

  unfoldable pub reserve_l3 : Option Reserved → Probing F → Bool × Probing F
  reserve_l3 none p = (true, p)
  reserve_l3 (some mem) p = elim mem.resource [
    | none ↦ (false, p)
    | some r ↦ if (p.region l3).pbase == 0 then claim_l3 mem.name r p else (true, p)
  ]

  -- The region is mapped, and its first word read.
  unfoldable pub map_node : F → String → Resource → Probing F → Probing F
  map_node f name r p =
      let v = t.ioremap p.maps r in
      let m : SharedMem =
        if t.read32 v == 0xbadcab1e
        then null_mem
        else record { pbase = r.start; vbase = v; size = r.size } in
      if is_err v
      then set same f (record (p.region f) { vbase = v }) (mapping r p)
      else print name m (set same f m (mapping r p))

  unfoldable pub probe_node : F → String → Probing F → ℤ × Probing F
  probe_node f name p = elim (t.child name) [
    | none ↦ (negsuc 0, set same f null_mem p)
    | some n ↦
        let (reserved, p1) = reserve_l3 n.memory_region p in
        if reserved
        then (t.uninitialised, map_node f name n.resource p1)
        else (negsuc 0, set same f null_mem p1)
  ]

  -- The calls for some of the fields, one after the other; the results are not looked at. `name` is
  -- the name in the device tree that goes with a field.
  unfoldable pub probe_nodes : (name : F → String) → List F → Probing F → Probing F
  probe_nodes name [] p = p
  probe_nodes name (f ∷ fs) p = probe_nodes name fs (probe_node f (name f) p).1
