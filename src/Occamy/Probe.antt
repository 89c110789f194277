-- ===== src/Occamy/Probe.antt =====
-- sw/hero-driver/occamy/occamy_driver.c: `read_snitch_cluster`, `probe_node`,
-- `card_platform_driver_probe` and `card_platform_driver_remove`. What Linux and the hardware answer to one
-- probe is a parameter (`Bus`).
pub mod Fields
pub mod Laws
mod Tests
use Prim.Native.String.{String}
use hero_tools.Prelude.{
  ℕ, ◌+◌, ◌%◌, ◌^◌, Bool, true, false, ◌&&◌, not, Option, none, some, List, [], ◌∷◌, if◌then◌else◌,
}
use hero_tools.Prelude.Int.{ℤ, pos, negsuc, neg, enomem, is_negative}
use hero_tools.Prelude.Bits.{add32}
use hero_tools.Driver.Probe.{
  DtNode, Tree, Probing, fresh, null_mem, is_err, set, reserve_l3, map_node,
}
use hero_tools.Driver.Devices.{CharDev, Devices, publish, unpublish}
use Fields.{Field, name, same}

-- The answers of Linux and of the hardware to one probe.
pub record Bus : Type 0 where
  -- Whether the two calls of `devm_kzalloc` succeed.
  pub kzalloc_data : Bool
  pub kzalloc_buffer : Bool
  pub tree : Tree
  -- Whether two equal string literals are one object.
  pub one_literal : Bool
  -- The result of reading "eth,compute-cores", and what `n_cores` then holds, from what it held.
  pub of_property_read_u32 : ℕ → ℤ × ℕ
  -- The length of the line of the details.
  pub sprintf_details : (n_cores n_clusters n_quadrants : ℕ) → ℕ
  pub dma_set_mask_and_coherent : ℤ
  pub char_dev : CharDev

-- The details of `struct cardev_private_data`.
pub record Details : Type 0 where
  pub n_cores : ℕ
  pub n_clusters : ℕ
  pub n_quadrants : ℕ

-- The device's data while it is probed.
pub record Card : Type 0 where
  pub probing : Probing Field
  pub details : Details

pub record Bound : Type 0 where
  pub card : Card
  pub dev_num : ℕ

-- The node is there where it is called.
unfoldable pub read_snitch_cluster : Bus → Details → ℤ × Details
read_snitch_cluster b d =
    let (err, n) = b.of_property_read_u32 d.n_cores in
    (
      err,
      record {
        n_cores = n;
        n_clusters = add32 d.n_clusters 1;
        n_quadrants = add32 d.n_quadrants 1;
      },
    )

-- The comparison `name == "snitch-cluster"` is one of two pointers.
unfoldable pub probe_node : Bus → Field → Card → ℤ × Card
probe_node b f c = elim (b.tree.child (name f)) [
  | none ↦ (negsuc 0, record c { probing = set same f null_mem c.probing })
  | some n ↦
      let (reserved, p1) = reserve_l3 same Field.l3 b.tree n.memory_region c.probing in
      let p2 = map_node same Field.l3 b.tree f (name f) n.resource p1 in
      let (err, d) = read_snitch_cluster b c.details in
      if reserved
      then (if (b.one_literal && same f Field.snitch_cluster)
            && not (is_err (b.tree.ioremap p1.maps n.resource))
          then (err, record { probing = p2; details = d })
          else (b.tree.uninitialised, record c { probing = p2 }))
      else (negsuc 0, record c { probing = set same f null_mem p1 })
]

-- The calls of a probe, one after the other; the results are not looked at.
unfoldable pub probe_nodes : Bus → List Field → Card → Card
probe_nodes b [] c = c
probe_nodes b (f ∷ fs) c = probe_nodes b fs (probe_node b f c).1

abbrev pub fields : List Field
fields =
    Field.soc_ctrl ∷ Field.quadrant_ctrl ∷ Field.clint ∷ Field.snitch_cluster ∷ Field.spm_wide
    ∷ Field.pcie_axi_bar ∷ []

abbrev pub new_card : Card
new_card = record {
  probing = fresh Field;
  details = record { n_cores = 0; n_clusters = 0; n_quadrants = 0 };
}

-- The details are printed behind the regions; the text itself is left out.
unfoldable pub print_details : Bus → Card → Card
print_details b c =
    let n = b.sprintf_details c.details.n_cores c.details.n_clusters c.details.n_quadrants in
    record c { probing = record c.probing { buffer_size = add32 c.probing.buffer_size n } }

-- The result, what the device's data are, if there are any, and the table of devices then. The number of
-- the device in Linux is `id`.
unfoldable pub card_platform_driver_probe : Bus → (id : ℕ) → Devices → ℤ × Option Bound × Devices
card_platform_driver_probe b id d =
    let card = print_details b (probe_nodes b fields new_card) in
    let num = add32 d.device_num_base id in
    let bound : Bound = record { card = card; dev_num = num } in
    let (ret, d1) = publish b.char_dev num d in
    if b.kzalloc_data && b.kzalloc_buffer
    then (if is_negative b.dma_set_mask_and_coherent
        then (b.dma_set_mask_and_coherent, some bound, d)
        else (ret, some bound, d1))
    else (neg enomem, none, d)

unfoldable pub card_platform_driver_remove : Bound → Devices → ℤ × Devices
card_platform_driver_remove bound d = (pos 0, unpublish bound.dev_num d)
