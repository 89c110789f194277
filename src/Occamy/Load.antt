-- ===== src/Occamy/Load.antt =====
-- sw/hero-driver/occamy/occamy_driver.c: `card_platform_driver_init` and `card_platform_driver_cleanup`, the
-- loading and the unloading of the module.
mod Tests
use hero_tools.Prelude.{ℕ, ◌<◌, ◌^◌, ◌≡◌, false, arith, if◌then◌else◌}
use hero_tools.Prelude.Int.{ℤ, is_nonzero}
use hero_tools.Driver.Load.{
  Loading, Registered, Globals, register_card, unregister_card, open_class, close_class,
}

unfoldable pub card_platform_driver_init : Loading → Globals → Registered → ℤ × Globals × Registered
card_platform_driver_init l g r =
    let (ret, g1, r1) = open_class l g r in
    if is_nonzero ret then (ret, g1, r1) else (ret, g1, register_card l r1)

unfoldable pub card_platform_driver_cleanup : Globals → Registered → Registered
card_platform_driver_cleanup g r = close_class g (unregister_card r)

-- The module is loaded, and unloaded if that succeeded.
abbrev pub load_unload : Loading → Globals → Registered → Registered
load_unload l g r =
    let (ret, g1, r1) = card_platform_driver_init l g r in
    if is_nonzero ret then r1 else card_platform_driver_cleanup g1 r1

pub occamy_load_unload-restores :
    (l : Loading) (g : Globals) (r : Registered)
    → l.class_create < 2 ^ 64
    → r.card_driver ≡ false
    → load_unload l g r ≡ r
unfolding card_platform_driver_init card_platform_driver_cleanup open_class close_class
occamy_load_unload-restores l g r is64 absent = ground arith
