-- ===== src/Occamy/Probe/Laws.antt =====
-- What a probe of the Occamy driver and the removal after it leave in the table of devices.
use hero_tools.Prelude.{ℕ, ◌<◌, ◌^◌, ◌≡◌, inl, inr, none, some, if◌then◌else◌, arith, Bool-cases}
use hero_tools.Prelude.Bits.{add32}
use hero_tools.Prelude.Int.{is_nonzero}
use hero_tools.Driver.Devices.{CharDev, Devices, publish, unpublish}
use hero_tools.Driver.Devices.Laws.{publish-refused, publish-accepted, unpublish-restores}
use hero_tools.Occamy.Probe.{Bus, card_platform_driver_probe, card_platform_driver_remove}

-- A device is probed, and removed if the probe accepted it.
abbrev pub settled : Bus → (id : ℕ) → Devices → Devices
settled b id d =
    let (ret, bound, d1) = card_platform_driver_probe b id d in
    elim bound [
      | none ↦ d1
      | some x ↦ if is_nonzero ret then d1 else (card_platform_driver_remove x d1).1
    ]

publish-settled :
    (c : CharDev) (num : ℕ) (d : Devices)
    → c.device_create < 2 ^ 64
    → d.total_devices < 2 ^ 32
    → (if is_nonzero (publish c num d).0
        then (publish c num d).1
        else unpublish num (publish c num d).1)
      ≡ record d { device_card = (publish c num d).1.device_card }
publish-settled c num d is64 small =
    let (ret, d1) = publish c num d in
    elim (Bool-cases (is_nonzero ret)) [
      | inl failed ↦ ground (arith, publish-refused c num d (ground arith))
      | inr ok ↦
          let (e1, e2, e3, e4) = publish-accepted c num d is64 (ground arith) in
          ground
            (arith, e4, unpublish-restores num d1 d.cdevs d.files d.total_devices small e1 e2 e3)
    ]

-- A probe of the Occamy driver, followed by the removal if it returned 0, leaves the table of
-- devices as it was but for the pointer to the last device file: an error on any path takes back
-- the cdev. The count of devices is below 2^32, and the pointer to the device below 2^64.
pub settled-restores :
    (b : Bus) (id : ℕ) (d : Devices)
    → b.char_dev.device_create < 2 ^ 64
    → d.total_devices < 2 ^ 32
    → settled b id d ≡ record d { device_card = (card_platform_driver_probe b id d).2.device_card }
unfolding card_platform_driver_probe card_platform_driver_remove
settled-restores b id d is64 small =
    ground (arith, publish-settled b.char_dev (add32 d.device_num_base id) d is64 small)
