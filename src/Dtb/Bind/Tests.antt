-- ===== src/Dtb/Bind/Tests.antt =====
-- Binding a device whose blob holds eight bytes.
use hero_tools.Prelude.{ℕ, ◌≡◌, refl, true, false, some, none, [], ◌==◌, if◌then◌else◌}
use hero_tools.Prelude.Int.{pos, negsuc}
use hero_tools.Dtb.{bar_read_dtb, copy_blob}
use hero_tools.Dtb.Bind.{
  Host, PciHeld, HeroPci, apply_blob, hero_pci_probe, unbind, hero_pci_probe-unbind,
}

abbrev window : ℕ → ℕ
window i =
    if i == 0
    then 0xd0
    else if i == 1
    then 0x0d
    else if i == 2
    then 0xfe
    else if i == 3
    then 0xed
    else if i == 7
    then 8
    else 0

abbrev host : Host
host = record {
  pcim_enable_device = pos 0;
  devm_kzalloc = true;
  pci = record {
    pci_resource_start = 0x1000;
    is_mem = true;
    ioremap = λ start. some window;
    kzalloc = true;
  };
  of_overlay_fdt_apply = λ blob size. (pos 0, pos 3);
  of_platform_default_populate = (negsuc 11, 2);
}

abbrev idle : PciHeld
idle = record { master = false; windows = 0; blobs = 0; overlays = []; children = 0 }

abbrev nothing : HeroPci
nothing = record { ovcs_id = pos 0; dtb_blob = λ i. 0; dtb_size = 0; populated = false }

unfoldable bound : HeroPci × PciHeld
unfolding hero_pci_probe apply_blob bar_read_dtb copy_blob
bound = elim (hero_pci_probe host idle) [
  | none ↦ (nothing, idle)
  | some (ret, none, h) ↦ (nothing, idle)
  | some (ret, some d, h) ↦ (d, h)
]

bind_run : hero_pci_probe host idle ≡ some (pos 0, some bound.0, bound.1)
unfolding hero_pci_probe apply_blob bar_read_dtb copy_blob bound
bind_run = refl

-- Two devices stay.
hero_pci_probe-unbind_example :
    unbind (some bound.0) bound.1
    ≡ record idle { master = (unbind (some bound.0) bound.1).master; children = 2 }
hero_pci_probe-unbind_example =
    hero_pci_probe-unbind host idle (pos 0) (some bound.0) bound.1 refl bind_run
