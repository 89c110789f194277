-- ===== src/Carfield/Probe/Removal.antt =====
-- What the removal of a Carfield device undoes.
use hero_tools.Prelude.{
  ℕ, ◌+◌, ◌%◌, ◌^◌, ◌<◌, ◌≡◌, ◌≢◌, inl, inr, ◌∙◌, Bool, true, ◌&&◌, not, none, some, ◌∷◌, arith,
  if◌then◌else◌, Bool-cases,
}
use hero_tools.Prelude.Int.{pos}
use hero_tools.Driver.Devices.Laws.{unpublish-restores, count, remove_first-absent}
use hero_tools.Carfield.Probe.{
  Bus, Held, Bound, card_platform_driver_probe, card_platform_driver_remove,
}
use hero_tools.Carfield.Probe.Laws.{keeps_domain, probe_accepted}

module _ (linux_6_5 : Bool) (frees : ℕ → Bool) (d : Bound) (h h' : Held) where
  -- Removing a device that holds a domain, or none, and was added last.
  remove-restores :
      (kept : Bool) (domain : ℕ)
      → h.devices.total_devices < 2 ^ 32
      → count 0 h.domains ≡ 0
      → h'.devices.cdevs ≡ d.dev_num ∷ h.devices.cdevs
      → h'.devices.files ≡ d.dev_num ∷ h.devices.files
      → h'.devices.total_devices ≡ (h.devices.total_devices + 1) % 2 ^ 32
      → h'.domains ≡ (if kept then domain ∷ h.domains else h.domains)
      → d.iommu_domain ≡ (if kept then domain else 0)
      → (kept ≡ true → frees domain ≡ true)
      → (kept ≡ true → linux_6_5 ≡ true)
      → card_platform_driver_remove linux_6_5 frees d h' ≡ (
          if linux_6_5 && (not kept && not (frees 0))
          then none
          else some (
            pos 0,
            record h' {
              domains = h.domains;
              devices = record h'.devices {
                cdevs = h.devices.cdevs;
                files = h.devices.files;
                total_devices = h.devices.total_devices;
              };
            },
          ))
  unfolding card_platform_driver_remove
  remove-restores kept domain small no_null e1 e2 e3 e4 e5 ok old =
      let devices =
        unpublish-restores d.dev_num h'.devices h.devices.cdevs h.devices.files
          h.devices.total_devices small e1 e2 e3 in
      elim (Bool-cases linux_6_5) [
        | inl new ↦ elim (Bool-cases kept) [
          | inl has ↦ ground (arith, devices)
          | inr has_none ↦ elim (Bool-cases (frees 0)) [
            | inl lenient ↦ ground (arith, devices, remove_first-absent 0 h.domains no_null)
            | inr strict ↦ ground (arith, devices)
          ]
        ]
        | inr previous ↦ ground (arith, devices)
      ]

module _ (linux_6_5 : Bool) (b : Bus) (id : ℕ) (h : Held) (d : Bound) (h' : Held)
    (is64 : b.char_dev.device_create < 2 ^ 64)
    (probed : card_platform_driver_probe linux_6_5 b id h ≡ some (pos 0, some d, h')) where
  -- Removing a Carfield device right after its probe returned 0 restores the cdevs, the device
  -- files, the count of devices and the IOMMU domains to what they were before the probe, and
  -- leaves all else, the interrupt handlers included, as the probe left it; but on Linux 6.5 or
  -- later without an IOMMU it does not return if Linux cannot take NULL for a domain. Linux takes
  -- every other domain, holds no NULL domain, the count is below 2^32, and the pointer to the
  -- device below 2^64.
  pub probe-remove :
      (frees : ℕ → Bool)
      → h.devices.total_devices < 2 ^ 32
      → count 0 h.domains ≡ 0
      → ((domain : ℕ) → domain ≢ 0 → frees domain ≡ true)
      → card_platform_driver_remove linux_6_5 frees d h' ≡ (
          if linux_6_5 && (not b.iommu_present && not (frees 0))
          then none
          else some (
            pos 0,
            record h' {
              domains = h.domains;
              devices = record h'.devices {
                cdevs = h.devices.cdevs;
                files = h.devices.files;
                total_devices = h.devices.total_devices;
              };
            },
          ))
  probe-remove frees small no_null ok =
      let (e1, e2, e3, e4, e5, same) = probe_accepted linux_6_5 b id h d h' is64 probed in
      let kept = keeps_domain linux_6_5 b in
      remove-restores linux_6_5 frees d h h' kept b.iommu_domain_alloc small no_null e1 e2 e3 e4 e5
        (λ has. ok b.iommu_domain_alloc (ground arith)) (λ has. ground arith)
      ∙ ground arith
