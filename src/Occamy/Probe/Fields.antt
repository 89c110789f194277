-- ===== src/Occamy/Probe/Fields.antt =====
-- The fields of `struct cardev_private_data` of sw/hero-driver/occamy/occamy.h that a probe fills, and the
-- names of their nodes in the device tree, from sw/hero-driver/occamy/occamy_driver.c.
use Prim.Native.String.{String, len}
use hero_tools.Prelude.{ℕ, ◌≤◌, Bool, arith, ◌==◌}

pub data Field : Type 0 where
  soc_ctrl quadrant_ctrl clint snitch_cluster spm_wide l3 pcie_axi_bar : Field

-- The strings of the calls of `probe_node`; the L3 region is not probed by a name.
unfoldable pub name : Field → String
name soc_ctrl = "soc-control"
name quadrant_ctrl = "quadrant-control"
name clint = "clint"
name snitch_cluster = "snitch-cluster"
name spm_wide = "spm-wide"
name l3 = ""
name pcie_axi_bar = "pcie-axi-bar-mem"

-- The place of a field in the struct.
abbrev pub index : Field → ℕ
index soc_ctrl = 0
index quadrant_ctrl = 1
index clint = 2
index snitch_cluster = 3
index spm_wide = 4
index l3 = 5
index pcie_axi_bar = 6

-- Whether two pointers lead to the same field.
abbrev pub same : Field → Field → Bool
same f g = index f == index g

pub name_short : (f : Field) → len (name f) ≤ 31
unfolding name
name_short soc_ctrl = omega arith
name_short quadrant_ctrl = omega arith
name_short clint = omega arith
name_short snitch_cluster = omega arith
name_short spm_wide = omega arith
name_short l3 = omega arith
name_short pcie_axi_bar = omega arith
