-- ===== src/Carfield/Load.antt =====
-- sw/hero-driver/carfield/carfield_driver.c: `card_platform_driver_init` and
-- `card_platform_driver_cleanup`, the loading and the unloading of the module.
mod Tests
use hero_tools.Prelude.{
  ℕ, ◌<◌, ◌^◌, ◌≡◌, ◌∙◌, refl, ap, Bool, true, false, ◌&&◌, ◌||◌, not, List, [], ◌∷◌, arith,
  if◌then◌else◌, Bool-cases, inl, inr,
}
use hero_tools.Prelude.Int.{ℤ, is_nonzero, is_negative}
use hero_tools.Driver.Probe.{is_err}
use hero_tools.Driver.Load.{
  Loading, Registered, Globals, platform_driver_register, register_card, unregister_card,
  open_class, close_class,
}

-- `platform_driver_register(&spatz_platform_driver)`
abbrev pub register_spatz : Loading → Registered → Registered
register_spatz l r = record r {
  spatz_driver = platform_driver_register l.registers_spatz r.spatz_driver;
}

unfoldable pub card_platform_driver_init : Loading → Globals → Registered → ℤ × Globals × Registered
card_platform_driver_init l g r =
    let (ret, g1, r1) = open_class l g r in
    if is_nonzero ret then (ret, g1, r1) else (ret, g1, register_card l (register_spatz l r1))

-- The Spatz driver is registered where it would be unregistered.
unfoldable pub card_platform_driver_cleanup : Loading → Globals → Registered → Registered
card_platform_driver_cleanup l g r = close_class g (register_spatz l (unregister_card r))

-- The module is loaded, and unloaded if that succeeded; the answers at its unloading are `l'`.
abbrev pub load_unload : (l l' : Loading) → Globals → Registered → Registered
load_unload l l' g r =
    let (ret, g1, r1) = card_platform_driver_init l g r in
    if is_nonzero ret then r1 else card_platform_driver_cleanup l' g1 r1

-- Whether the module was loaded: device numbers and a class were given.
abbrev pub loads : Loading → Bool
loads l = not (is_negative l.alloc_chrdev_region) && not (is_err l.class_create)

-- Loading the Carfield module, and unloading it if that succeeded, leaves what Linux has registered
-- for it as it was, but for the driver of the Spatz cluster: if the module was loaded, that driver
-- stays registered when it was before, or when Linux accepts it at the loading or at the unloading.
-- The driver of the card is not registered before, and the pointer to the class is below 2^64.
pub load_unload-restores :
    (l l' : Loading) (g : Globals) (r : Registered)
    → l.class_create < 2 ^ 64
    → r.card_driver ≡ false
    → load_unload l l' g r ≡ record r {
      spatz_driver = r.spatz_driver || (loads l && (l.registers_spatz || l'.registers_spatz));
    }
unfolding card_platform_driver_init card_platform_driver_cleanup open_class close_class
load_unload-restores l l' g r is64 absent = elim (Bool-cases (is_negative l.alloc_chrdev_region)) [
  | inl failed ↦ ground (arith, failed)
  | inr given ↦ elim (Bool-cases (is_err l.class_create)) [
    | inl failed ↦ ground (arith, given, failed)
    | inr created ↦ ground (arith, given, created, absent)
  ]
]
