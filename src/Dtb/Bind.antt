-- ===== src/Dtb/Bind.antt =====
-- sw/hero-pcie-dts-driver/hero_pcie_dts.c: `hero_pci_probe` and `hero_pci_remove`, which apply the device
-- tree read from the device and take it back. What Linux answers is a parameter (`Host`).
mod Tests
use hero_tools.Prelude.{
  ℕ, zero, suc, ◌+◌, ◌-◌, ◌≡◌, refl, inl, inr, ap, ◌∙◌, Bool, true, false, Option, none, some, List,
  ◌∷◌, arith, ◌==◌, ◌&&◌, if◌then◌else◌, Option-cases, ==_refl,
}
use hero_tools.Prelude.Int.{ℤ, pos, neg, negsuc, enomem, is_nonzero}
use hero_tools.Prelude.Partial.{◌>>=◌}
use hero_tools.Driver.Devices.{remove_first}
use hero_tools.Dtb.{Pci, dtb_offset, bar_read_dtb}
use hero_tools.Prelude.Bits.{add64}

pub record Host : Type 0 where
  pub pcim_enable_device : ℤ
  pub devm_kzalloc : Bool
  pub pci : Pci
  -- The result of applying a blob of some size, and the number of the overlay, positive if there is one
  -- to be removed, even after an error.
  pub of_overlay_fdt_apply : (blob : ℕ → ℕ) → (size : ℕ) → ℤ × ℤ
  -- The result of populating, and how many devices were created, which a failure leaves.
  pub of_platform_default_populate : ℤ × ℕ

-- What Linux holds for the driver: whether the device may master the bus, how many windows `ioremap` has
-- mapped, the blobs allocated, the overlays, and the devices created below the device.
pub record PciHeld : Type 0 where
  pub master : Bool
  pub windows : ℕ
  pub blobs : ℕ
  pub overlays : List ℕ
  pub children : ℕ

-- `struct hero_pci`, of a probe that read a blob.
pub record HeroPci : Type 0 where
  pub ovcs_id : ℤ
  pub dtb_blob : ℕ → ℕ
  pub dtb_size : ℕ
  pub populated : Bool

-- The overlays with, and without, the one of a number.
abbrev pub add_overlay : ℤ → List ℕ → List ℕ
add_overlay (pos zero) os = os
add_overlay (pos (suc n)) os = suc n ∷ os
add_overlay (negsuc n) os = os

abbrev pub of_overlay_remove : ℤ → List ℕ → List ℕ
of_overlay_remove (pos zero) os = os
of_overlay_remove (pos (suc n)) os = remove_first (suc n) os
of_overlay_remove (negsuc n) os = os

-- `hero_pci_probe` behind `bar_read_dtb`: errors are printed, and the result is 0.
unfoldable pub apply_blob : Host → (ℕ → ℕ) → ℕ → PciHeld → ℤ × HeroPci × PciHeld
apply_blob c blob size h =
    let (ret, id) = c.of_overlay_fdt_apply blob size in
    let (err, created) = c.of_platform_default_populate in
    let populated = if is_nonzero err then false else true in
    (
      pos 0,
      record { ovcs_id = id; dtb_blob = blob; dtb_size = size; populated = populated },
      record h {
        blobs = h.blobs + 1;
        overlays = add_overlay id h.overlays;
        children = h.children + created;
      },
    )

-- Whether `bar_read_dtb` maps its window.
abbrev pub maps_window : Pci → Bool
maps_window pci =
    let mapped : Bool = elim (pci.ioremap (add64 pci.pci_resource_start dtb_offset)) [
      | none ↦ false
      | some map ↦ true
    ] in
    if pci.pci_resource_start == 0 then false else pci.is_mem && mapped

-- `bar_read_dtb` unmaps its window only where it returns 0.
abbrev pub leave_window : Pci → PciHeld → PciHeld
leave_window pci h = record h { windows = h.windows + (if maps_window pci then 1 else 0) }

-- The result, the device's data if the blob was read, and what Linux then holds.
unfoldable pub hero_pci_probe : Host → PciHeld → Option (ℤ × Option HeroPci × PciHeld)
hero_pci_probe c h =
    let h1 : PciHeld = record h { master = true } in
    let rest = bar_read_dtb c.pci >>= λ (ret, read). elim read [
      | none ↦ some (ret, none, leave_window c.pci h1)
      | some (blob, size) ↦ let (ret', d, h2) = apply_blob c blob size h1 in some (ret', some d, h2)
    ] in
    if is_nonzero c.pcim_enable_device
    then some (c.pcim_enable_device, none, h)
    else (if c.devm_kzalloc then rest else some (neg enomem, none, h1))

-- The blob's pointer is not NULL. `of_platform_depopulate` removes every device below this one. An overlay is
-- removed if its number is positive.
unfoldable pub hero_pci_remove : HeroPci → PciHeld → PciHeld
hero_pci_remove d h = record h {
  master = false;
  blobs = h.blobs - 1;
  overlays = of_overlay_remove d.ovcs_id h.overlays;
  children = if d.populated then 0 else h.children;
}

-- A bound device is removed.
abbrev pub unbind : Option HeroPci → PciHeld → PciHeld
unbind none h = h
unbind (some d) h = hero_pci_remove d h

-- The devices that stay: those of a populating that failed on the way.
abbrev pub children_left : Host → Option HeroPci → ℕ
children_left c none = 0
children_left c (some d) =
    let (err, created) = c.of_platform_default_populate in if is_nonzero err then created else 0

-- The windows that stay: that of a reading which failed behind `ioremap`.
abbrev pub windows_left : Host → Option HeroPci → ℕ
windows_left c (some d) = 0
windows_left c none =
    if is_nonzero c.pcim_enable_device
    then 0
    else if c.devm_kzalloc && maps_window c.pci
    then 1
    else 0

overlay-remove : (id : ℤ) (os : List ℕ) → of_overlay_remove id (add_overlay id os) ≡ os
overlay-remove (pos zero) os = refl
overlay-remove (pos (suc n)) os = ground (arith, ==_refl (suc n))
overlay-remove (negsuc n) os = refl

apply-remove :
    (c : Host) (blob : ℕ → ℕ) (size : ℕ) (h : PciHeld)
    → h.children ≡ 0
    → hero_pci_remove (apply_blob c blob size h).1 (apply_blob c blob size h).2
      ≡ record h { master = false; children = children_left c (some (apply_blob c blob size h).1) }
unfolding apply_blob hero_pci_remove
apply-remove c blob size h none_yet =
    ground (arith, overlay-remove (c.of_overlay_fdt_apply blob size).1 h.overlays)

-- If `hero_pci_probe` returns, and the device is removed if it was bound, Linux holds the blobs and
-- overlays that it held before. One more window stays mapped just if the probe got as far as
-- mapping it and failed, and of the devices below this one those stay that a failing populate has
-- created. Before there were none below it.
pub hero_pci_probe-unbind :
    (c : Host) (h : PciHeld) (ret : ℤ) (d : Option HeroPci) (h' : PciHeld)
    → h.children ≡ 0
    → hero_pci_probe c h ≡ some (ret, d, h')
    → unbind d h' ≡ record h {
      master = (unbind d h').master;
      windows = h.windows + windows_left c d;
      children = children_left c d;
    }
unfolding hero_pci_probe
hero_pci_probe-unbind c h ret d h' none_yet e = elim (Option-cases (bar_read_dtb c.pci)) [
  | inl faults ↦ ground arith
  | inr ((ret1, none), there) ↦ ground arith
  | inr ((ret1, some (blob, size)), there) ↦
      ground (arith, apply-remove c blob size (record h { master = true }) none_yet)
]
