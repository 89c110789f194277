-- ===== src/Driver/Load.antt =====
-- sw/hero-driver/carfield/carfield_driver.c and sw/hero-driver/occamy/occamy_driver.c: what the loading and
-- the unloading of both modules share, the device numbers and the class, on what Linux has registered for
-- the module. What Linux answers is a parameter (`Loading`).
use hero_tools.Prelude.{ℕ, Bool, true, false, ◌%◌, ◌^◌, List, ◌∷◌, if◌then◌else◌}
use hero_tools.Prelude.Int.{ℤ, pos, is_negative}
use hero_tools.Prelude.Bits.{signed32}
use hero_tools.Driver.Probe.{is_err}
use hero_tools.Driver.Devices.{remove_first}

-- The answers of Linux: the result of `alloc_chrdev_region` and the first number given, the class, or an
-- error as a pointer, and whether it registers each platform driver that is not registered.
pub record Loading : Type 0 where
  pub alloc_chrdev_region : ℤ
  pub device_num_base : ℕ
  pub class_create : ℕ
  pub registers_card : Bool
  pub registers_spatz : Bool

-- What Linux holds: the first numbers of the ranges of MAX_DEVICES device numbers, the classes, and whether
-- each platform driver is registered.
pub record Registered : Type 0 where
  pub ranges : List ℕ
  pub classes : List ℕ
  pub card_driver : Bool
  pub spatz_driver : Bool

-- `cardrv_data.device_num_base` and `cardrv_data.class_card`.
pub record Globals : Type 0 where
  pub device_num_base : ℕ
  pub class_card : ℕ

-- `platform_driver_register`, whose result is not looked at, on a driver: one that is registered is refused,
-- with -EBUSY, and stays registered.
abbrev pub platform_driver_register : (registers registered : Bool) → Bool
platform_driver_register registers registered = if registered then true else registers

abbrev pub register_card : Loading → Registered → Registered
register_card l r = record r {
  card_driver = platform_driver_register l.registers_card r.card_driver;
}

-- `platform_driver_unregister`; a driver that is not registered is left so, with a warning.
abbrev pub unregister_card : Registered → Registered
unregister_card r = record r { card_driver = false }

abbrev pub alloc_range : ℕ → Registered → Registered
alloc_range base r = record r { ranges = base ∷ r.ranges }

-- `unregister_chrdev_region`
abbrev pub unregister_range : ℕ → Registered → Registered
unregister_range base r = record r { ranges = remove_first base r.ranges }

-- `class_create` that succeeds, and `class_destroy`.
abbrev pub class_create : ℕ → Registered → Registered
class_create class r = record r { classes = class ∷ r.classes }

abbrev pub class_destroy : ℕ → Registered → Registered
class_destroy class r = record r { classes = remove_first class r.classes }

-- `card_platform_driver_init`, up to the registration of the drivers.
unfoldable pub open_class : Loading → Globals → Registered → ℤ × Globals × Registered
open_class l g r =
    let r1 = alloc_range l.device_num_base r in
    let g1 : Globals = record {
      device_num_base = l.device_num_base;
      class_card = l.class_create;
    } in
    if is_negative l.alloc_chrdev_region
    then (l.alloc_chrdev_region, g, r)
    else (if is_err l.class_create
        then (signed32 (l.class_create % 2 ^ 32), g1, unregister_range l.device_num_base r1)
        else (pos 0, g1, class_create l.class_create r1))

-- `card_platform_driver_cleanup`, behind the drivers.
unfoldable pub close_class : Globals → Registered → Registered
close_class g r = unregister_range g.device_num_base (class_destroy g.class_card r)
