-- ===== src/Occamy/Probe/Tests.antt =====
-- A probe of an Occamy device, and its removal.
use Prim.Native.String.{len}
use hero_tools.Prelude.{◌+◌, ◌*◌, ◌^◌, ◌≡◌, refl, true, none, some, [], arith}
use hero_tools.Prelude.Int.{pos}
use hero_tools.Driver.Probe.{Tree, reserve_l3, map_node, print}
use hero_tools.Driver.Devices.{Devices}
use hero_tools.Occamy.Probe.{
  Bus, read_snitch_cluster, probe_node, probe_nodes, fields, new_card, card_platform_driver_probe,
}
use hero_tools.Occamy.Probe.Fields.{name}
use hero_tools.Occamy.Probe.Laws.{settled, settled-restores}

-- Each node has a page, and there is no L3 memory.
abbrev tree : Tree
tree = record {
  child = λ n. some (record {
    memory_region = none;
    resource = record { start = 0x1000 * len n; size = 0x1000 };
  });
  ioremap = λ maps r. r.start + 2 ^ 40;
  read32 = λ p. 7;
  sprintf = λ n pbase size. len n + 35;
  uninitialised = pos 3;
}

abbrev bus : Bus
bus = record {
  kzalloc_data = true;
  kzalloc_buffer = true;
  tree = tree;
  one_literal = true;
  of_property_read_u32 = λ old. (pos 0, 8);
  sprintf_details = λ a b c. 50;
  dma_set_mask_and_coherent = pos 0;
  char_dev = record { cdev_add = pos 0; device_create = 0x9000 };
}

abbrev devices : Devices
devices = record {
  total_devices = 0;
  device_num_base = 0xf00000;
  device_card = 0;
  cdevs = [];
  files = [];
}

-- One cluster with its cores is told.
details_run :
    (probe_nodes bus fields new_card).details
    ≡ record { n_cores = 8; n_clusters = 1; n_quadrants = 1 }
unfolding probe_nodes probe_node read_snitch_cluster reserve_l3 map_node print name
details_run = refl

settled-restores_example :
    settled bus 1 devices
    ≡ record devices { device_card = (card_platform_driver_probe bus 1 devices).2.device_card }
settled-restores_example = settled-restores bus 1 devices (omega arith) (omega arith)
