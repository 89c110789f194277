-- ===== src/Carfield/Probe.antt =====
-- sw/hero-driver/carfield/carfield_driver.c, `card_platform_driver_probe` and
-- `card_platform_driver_remove`, on what Linux keeps for the driver (`Held`). What Linux and the hardware
-- answer to one probe is a parameter (`Bus`). Left out is `dma_set_mask_and_coherent` for the Spatz cluster,
-- whose result is only printed.
pub mod Fields
pub mod Irq
pub mod Told
pub mod InfoBuffer
pub mod Laws
pub mod Removal
pub mod History
mod Tests
use hero_tools.Prelude.{
  ℕ, zero, suc, ◌+◌, ◌-◌, ◌*◌, ◌/◌, ◌^◌, Bool, true, false, ◌&&◌, Option, none, some, List, [], ◌∷◌,
  ◌++◌, leb, ◌==◌, if◌then◌else◌,
}
use hero_tools.Prelude.Int.{ℤ, pos, neg, enomem, is_negative, is_nonzero}
use hero_tools.Prelude.Bits.{add32, add64}
use hero_tools.Prelude.Partial.{◌>>=◌}
use hero_tools.Driver.{SharedMem}
use hero_tools.Driver.Probe.{Tree, Probing, fresh, probe_nodes}
use hero_tools.Driver.Devices.{CharDev, Devices, remove_first, publish, unpublish}
use Fields.{Field, name, same}

-- The answers of Linux and of the hardware to one probe.
pub record Bus : Type 0 where
  -- Whether the two calls of `devm_kzalloc` succeed.
  pub kzalloc_data : Bool
  pub kzalloc_buffer : Bool
  pub tree : Tree
  -- The number of the GPIO's interrupt `i`, or an error.
  pub of_irq_get : ℕ → ℤ
  -- `request_irq`, and whether an interrupt has a descriptor.
  pub request_irq : ℤ → ℤ
  pub has_desc : ℤ → Bool
  -- Whether a store to an address reaches anything.
  pub mapped : ℕ → Bool
  pub iommu_present : Bool
  -- A domain; 0 is NULL.
  pub iommu_domain_alloc : ℕ
  pub iommu_attach_device : ℤ
  pub char_dev : CharDev

-- What Linux holds for the driver: the character devices, the IOMMU domains, and the handlers of
-- interrupts, each by its number and its device; and the stores to devices.
pub record Held : Type 0 where
  pub devices : Devices
  pub domains : List ℕ
  pub handlers : List (ℤ × ℕ)
  pub stores : List (ℕ × ℕ)

-- What `struct cardev_private_data` holds of a probed device. `iommu_maps` lists the calls of
-- `iommu_map`, whose results are not looked at: an address, mapped to itself, and a size.
pub record Bound : Type 0 where
  pub probing : Probing Field
  pub dev_num : ℕ
  pub iommu_domain : ℕ
  pub iommu_maps : List (ℕ × ℕ)

abbrev pub gpio_n_irqs : ℕ
gpio_n_irqs = 4

abbrev pub isolate_begin_offset : ℕ
isolate_begin_offset = 15 * 4

abbrev pub isolate_end_offset : ℕ
isolate_end_offset = 20 * 4

-- The rounds of the loop from the one to the other by steps of 4.
abbrev pub n_isolate : ℕ
n_isolate = (isolate_end_offset - isolate_begin_offset) / 4

-- The fields probed before and after the islands are de-isolated.
abbrev pub early_fields : List Field
early_fields =
    Field.soc_ctrl ∷ Field.mboxes ∷ Field.idma ∷ Field.pcie_axi_bar ∷ Field.ctrl_regs ∷ Field.gpio
    ∷ []

abbrev pub late_fields : List Field
late_fields =
    Field.safety_island ∷ Field.integer_cluster ∷ Field.spatz_cluster ∷ Field.l2_intl_0
    ∷ Field.l2_cont_0 ∷ Field.l2_intl_1 ∷ Field.l2_cont_1 ∷ Field.l3 ∷ []

abbrev pub mapped_fields : List Field
mapped_fields =
    Field.l2_intl_0 ∷ Field.l2_cont_0 ∷ Field.spatz_cluster ∷ Field.soc_ctrl ∷ Field.mboxes
    ∷ Field.pcie_axi_bar ∷ Field.ctrl_regs ∷ Field.l3 ∷ []

-- A 32-bit store. `none` is a fault.
unfoldable pub store : Bus → (addr word : ℕ) → Held → Option Held
store b addr word h =
    if b.mapped addr then some (record h { stores = h.stores ++ ((addr, word) ∷ []) }) else none

-- The loop over the GPIO's interrupts: the rounds left, and `i`. Errors are printed, and a missing
-- descriptor faults. The condition `HERO_PLATFORM == NATIVE` compares two names that are not defined.
unfoldable pub request_irqs : Bus → (id : ℕ) → ℕ → (i : ℕ) → Held → Option Held
request_irqs b id zero i h = some h
request_irqs b id (suc n) i h =
    let irq = b.of_irq_get i in
    let h1 : Held =
      if is_nonzero (b.request_irq irq)
      then h
      else record h { handlers = h.handlers ++ ((irq, id) ∷ []) } in
    let rest = request_irqs b id n (i + 1) h1 in if b.has_desc irq then rest else none

-- The loop that de-isolates the islands: the rounds left, and the register's address.
unfoldable pub deisolate : Bus → ℕ → (addr : ℕ) → Held → Option Held
deisolate b zero addr h = some h
deisolate b (suc n) addr h = store b addr 0 h >>= λ h1. deisolate b n (add64 addr 4) h1

-- What is done with the hardware between the two groups of fields.
unfoldable pub wake : Bus → (id : ℕ) → Probing Field → Held → Option Held
wake b id p h =
    let gpio = (p.region Field.gpio).vbase in
    let soc_ctrl = (p.region Field.soc_ctrl).vbase in
    request_irqs b id gpio_n_irqs 0 h >>= λ h1. store b (add64 gpio 0x04) 0xffffffff h1 >>= λ h2.
    store b (add64 gpio 0x34) 0xffffffff h2 >>= λ h3.
    deisolate b n_isolate (add64 soc_ctrl isolate_begin_offset) h3

-- `iommu_domain_alloc` that succeeds, and `iommu_domain_free`.
abbrev pub domain_alloc : ℕ → Held → Held
domain_alloc d h = record h { domains = d ∷ h.domains }

abbrev pub domain_free : ℕ → Held → Held
domain_free d h = record h { domains = remove_first d h.domains }

-- The IOMMU part of the probe: the result, 0 if the probe goes on, and the domain kept.
unfoldable pub attach : (linux_6_5 : Bool) → Bus → Held → ℤ × ℕ × Held
attach linux_6_5 b h =
    let h1 = domain_alloc b.iommu_domain_alloc h in
    if linux_6_5 && b.iommu_present
    then (if b.iommu_domain_alloc == 0
        then (neg enomem, 0, h)
        else (if is_nonzero b.iommu_attach_device
            then (b.iommu_attach_device, b.iommu_domain_alloc, domain_free b.iommu_domain_alloc h1)
            else (pos 0, b.iommu_domain_alloc, h1)))
    else (pos 0, 0, h)

unfoldable pub map_all : Probing Field → List Field → List (ℕ × ℕ)
map_all p [] = []
map_all p (f ∷ fs) = ((p.region f).pbase, (p.region f).size) ∷ map_all p fs

-- The rest of the probe, of the fields as they were probed.
unfoldable pub finish :
    (linux_6_5 : Bool) → Bus → (dev_num : ℕ) → Probing Field → Held → ℤ × Bound × Held
finish linux_6_5 b num p h =
    let (ret, domain, h1) = attach linux_6_5 b h in
    let maps = if domain == 0 then [] else map_all p mapped_fields in
    let bound : Bound = record {
      probing = p;
      dev_num = num;
      iommu_domain = domain;
      iommu_maps = maps;
    } in
    let (ret', devices) = publish b.char_dev num h1.devices in
    if is_nonzero ret then (ret, bound, h1) else (ret', bound, record h1 { devices = devices })

-- The fields after the probe, if nothing stopped it.
unfoldable pub probe_early : Bus → Probing Field
probe_early b = probe_nodes same Field.l3 b.tree name early_fields (fresh Field)

unfoldable pub probe_late : Bus → Probing Field
probe_late b = probe_nodes same Field.l3 b.tree name late_fields (probe_early b)

-- The result, what the device's data are, if there are any, and what Linux then holds. `none` is a
-- fault. The number of the device in Linux is `id`.
unfoldable pub card_platform_driver_probe :
    (linux_6_5 : Bool) → Bus → (id : ℕ) → Held → Option (ℤ × Option Bound × Held)
card_platform_driver_probe linux_6_5 b id h =
    let woken = wake b id (probe_early b) h >>= λ h1.
    let num = add32 h1.devices.device_num_base id in
    let (ret, bound, h2) = finish linux_6_5 b num (probe_late b) h1 in some (ret, some bound, h2) in
    if b.kzalloc_data && b.kzalloc_buffer then woken else some (neg enomem, none, h)

-- The result, and what Linux then holds. `frees` says whether Linux returns from `iommu_detach_device`
-- and `iommu_domain_free` with a domain.
unfoldable pub card_platform_driver_remove :
    (linux_6_5 : Bool) → (frees : ℕ → Bool) → Bound → Held → Option (ℤ × Held)
card_platform_driver_remove linux_6_5 frees d h =
    let h1 = if linux_6_5 then domain_free d.iommu_domain h else h in
    let h2 : Held = record h1 { devices = unpublish d.dev_num h1.devices } in
    if linux_6_5 && (if frees d.iommu_domain then false else true) then none else some (pos 0, h2)
