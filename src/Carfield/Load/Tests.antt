-- ===== src/Carfield/Load/Tests.antt =====
-- Loading and unloading the Carfield module.
use hero_tools.Prelude.{◌≡◌, refl, true, false, [], arith}
use hero_tools.Prelude.Int.{pos}
use hero_tools.Driver.Load.{Loading, Registered, Globals}
use hero_tools.Carfield.Load.{load_unload, load_unload-restores}

abbrev answers : Loading
answers = record {
  alloc_chrdev_region = pos 0;
  device_num_base = 0xf00000;
  class_create = 0x9000;
  registers_card = true;
  registers_spatz = true;
}

abbrev booted : Registered
booted = record { ranges = []; classes = []; card_driver = false; spatz_driver = false }

abbrev unset : Globals
unset = record { device_num_base = 0; class_card = 0 }

-- The driver stays behind.
load_unload-restores_example :
    load_unload answers answers unset booted ≡ record booted { spatz_driver = true }
load_unload-restores_example = load_unload-restores answers answers unset booted (omega arith) refl
