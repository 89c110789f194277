-- ===== src/Driver/Devices.antt =====
-- sw/hero-driver/carfield/carfield_driver.c and sw/hero-driver/occamy/occamy_driver.c: the character
-- devices, `struct cardrv_private_data` and the ends of probe and remove, whose text is the same in both.
-- What Linux answers is a parameter (`CharDev`).
pub mod Laws
use hero_tools.Prelude.{ℕ, ◌+◌, ◌-◌, ◌%◌, ◌^◌, Bool, List, [], ◌∷◌, ◌==◌, if◌then◌else◌}
use hero_tools.Prelude.Int.{ℤ, pos, is_negative}
use hero_tools.Prelude.Bits.{add32, signed32}
use hero_tools.Driver.Probe.{is_err}

-- The results of Linux for one device.
pub record CharDev : Type 0 where
  pub cdev_add : ℤ
  -- A pointer, or an error as a pointer.
  pub device_create : ℕ

-- `struct cardrv_private_data`, and the device numbers that Linux has a cdev and a device file for.
pub record Devices : Type 0 where
  pub total_devices : ℕ
  pub device_num_base : ℕ
  pub device_card : ℕ
  pub cdevs : List ℕ
  pub files : List ℕ

abbrev pub remove_first : ℕ → List ℕ → List ℕ
remove_first x [] = []
remove_first x (y ∷ ys) = if x == y then ys else y ∷ remove_first x ys

-- `cdev_add` that succeeds, and `cdev_del`.
abbrev pub cdev_add : ℕ → Devices → Devices
cdev_add num d = record d { cdevs = num ∷ d.cdevs }

abbrev pub cdev_del : ℕ → Devices → Devices
cdev_del num d = record d { cdevs = remove_first num d.cdevs }

-- `device_create` that succeeds, and `device_destroy`.
abbrev pub device_create : ℕ → Devices → Devices
device_create num d = record d { files = num ∷ d.files }

abbrev pub device_destroy : ℕ → Devices → Devices
device_destroy num d = record d { files = remove_first num d.files }

-- The end of `card_platform_driver_probe`, from `cdev_add` on. `PTR_ERR` is cut to an `int`.
unfoldable pub publish : CharDev → (dev_num : ℕ) → Devices → ℤ × Devices
publish c num d =
    let d1 : Devices = record (cdev_add num d) { device_card = c.device_create } in
    let d2 = device_create num d1 in
    if is_negative c.cdev_add
    then (c.cdev_add, d)
    else (if is_err c.device_create
        then (signed32 (c.device_create % 2 ^ 32), cdev_del num d1)
        else (pos 0, record d2 { total_devices = add32 d2.total_devices 1 }))

-- The end of `card_platform_driver_remove`.
unfoldable pub unpublish : (dev_num : ℕ) → Devices → Devices
unpublish num d =
    let d1 = cdev_del num (device_destroy num d) in
    record d1 { total_devices = (d1.total_devices + 2 ^ 32 - 1) % 2 ^ 32 }
