-- ===== src/Carfield/Probe/Fields.antt =====
-- The fields of `struct cardev_private_data` of sw/hero-driver/carfield/carfield.h that a probe fills, and
-- the names of their nodes in the device tree, from sw/hero-driver/carfield/carfield_driver.c.
use Prim.Native.String.{String, len}
use hero_tools.Prelude.{
  ℕ, ◌≤◌, ◌≡◌, Bool, true, arith, refl, ap, sym, ◌∙◌, ◌==◌, ==_refl, ==_iff, if◌then◌else◌,
}

pub data Field : Type 0 where
  soc_ctrl mboxes idma pcie_axi_bar ctrl_regs gpio safety_island : Field
  integer_cluster spatz_cluster l2_intl_0 l2_cont_0 l2_intl_1 l2_cont_1 l3 : Field

-- The strings of the calls of `probe_node`.
unfoldable pub name : Field → String
name soc_ctrl = "soc-ctrl"
name mboxes = "mboxes"
name idma = "idma"
name pcie_axi_bar = "pcie-axi-bar-mem"
name ctrl_regs = "ctrl-regs"
name gpio = "gpio"
name safety_island = "safety-island"
name integer_cluster = "integer-cluster"
name spatz_cluster = "spatz-cluster"
name l2_intl_0 = "l2-intl-0"
name l2_cont_0 = "l2-cont-0"
name l2_intl_1 = "l2-intl-1"
name l2_cont_1 = "l2-cont-1"
name l3 = "l3-buffer"

-- The place of a field in the struct.
abbrev pub index : Field → ℕ
index idma = 0
index soc_ctrl = 1
index mboxes = 2
index ctrl_regs = 3
index gpio = 4
index l2_intl_0 = 5
index l2_cont_0 = 6
index l2_intl_1 = 7
index l2_cont_1 = 8
index safety_island = 9
index integer_cluster = 10
index spatz_cluster = 11
index l3 = 12
index pcie_axi_bar = 13

-- Whether two pointers lead to the same field.
abbrev pub same : Field → Field → Bool
same f g = index f == index g

abbrev of_index : ℕ → Field
of_index n =
    if n == 0
    then idma
    else if n == 1
    then soc_ctrl
    else if n == 2
    then mboxes
    else if n == 3
    then ctrl_regs
    else if n == 4
    then gpio
    else if n == 5
    then l2_intl_0
    else if n == 6
    then l2_cont_0
    else if n == 7
    then l2_intl_1
    else if n == 8
    then l2_cont_1
    else if n == 9
    then safety_island
    else if n == 10
    then integer_cluster
    else if n == 11
    then spatz_cluster
    else if n == 12
    then l3
    else pcie_axi_bar

of_index-index : (f : Field) → of_index (index f) ≡ f
of_index-index soc_ctrl = refl
of_index-index mboxes = refl
of_index-index idma = refl
of_index-index pcie_axi_bar = refl
of_index-index ctrl_regs = refl
of_index-index gpio = refl
of_index-index safety_island = refl
of_index-index integer_cluster = refl
of_index-index spatz_cluster = refl
of_index-index l2_intl_0 = refl
of_index-index l2_cont_0 = refl
of_index-index l2_intl_1 = refl
of_index-index l2_cont_1 = refl
of_index-index l3 = refl

pub same_eq : (f g : Field) → same f g ≡ true → f ≡ g
same_eq f g e =
    sym (of_index-index f) ∙ ap of_index ((==_iff (index f) (index g)).0 e) ∙ of_index-index g

pub same_refl : (f : Field) → same f f ≡ true
same_refl f = ==_refl (index f)

pub name_short : (f : Field) → len (name f) ≤ 31
unfolding name
name_short soc_ctrl = omega arith
name_short mboxes = omega arith
name_short idma = omega arith
name_short pcie_axi_bar = omega arith
name_short ctrl_regs = omega arith
name_short gpio = omega arith
name_short safety_island = omega arith
name_short integer_cluster = omega arith
name_short spatz_cluster = omega arith
name_short l2_intl_0 = omega arith
name_short l2_cont_0 = omega arith
name_short l2_intl_1 = omega arith
name_short l2_cont_1 = omega arith
name_short l3 = omega arith
