-- ===== src/Carfield/Probe/Tests.antt =====
-- A probe of a Carfield device whose nodes are all there, its removal, and a refused probe.
use Prim.Native.String.{len}
use hero_tools.Prelude.{
  ℕ, ◌+◌, ◌^◌, ◌≡◌, refl, Bool, not, true, false, Option, none, some, List, [], ◌∷◌, ◌++◌, arith,
  ◌==◌, ◌%◌, ◌<◌, ◌*◌,
}
use mathlib.Core.Path.{subst}
use hero_tools.Prelude.Int.{ℤ, pos, neg, enomem}
use hero_tools.Driver.{SharedMem, Kernel, IoctlArg}
use hero_tools.Driver.Probe.{
  Reserved, Tree, fresh, print, claim_l3, reserve_l3, map_node, probe_node, probe_nodes,
}
use hero_tools.Driver.Probe.Laws.{IsBacked}
use hero_tools.Driver.Probe.Buffer.{IsShort, FormatsLine, AreShort, total}
use hero_tools.Driver.Devices.{CharDev, publish, unpublish}
use hero_tools.Driver.Devices.Laws.{count}
use hero_tools.Carfield.{Cardev, ioctl_mem_infos, card_ioctl, dispatch, ioctl_infos, send_back}
use hero_tools.Carfield.MmapId
use hero_tools.Carfield.Regions.{lookup_region}
use hero_tools.Carfield.Probe.{
  Bus, Held, Bound, store, request_irqs, deisolate, wake, attach, map_all, finish, probe_early,
  probe_late, card_platform_driver_probe, card_platform_driver_remove,
}
use hero_tools.Carfield.Probe.Fields.{Field, name}
use hero_tools.Carfield.Probe.Irq.{
  Handling, IrqReturn, handle_irqs, handled, half, bits, handle_irqs-every_second,
}
use hero_tools.Carfield.Probe.Told.{regions_of, field_at, probe-mem_infos}
use hero_tools.Carfield.Probe.InfoBuffer.{pdata_size, probe-buffer_size}
use hero_tools.Carfield.Probe.Removal.{probe-remove}
use hero_tools.Carfield.Probe.History.{
  System, accepts, removes, here, next, IsConsistent, Reach-IsConsistent,
}

abbrev l3_memory : Reserved
l3_memory = record { name = "l3"; resource = some (record { start = 0x80000000; size = 0x100000 }) }

-- Each node has a page; the first that is found has the L3 memory behind it.
abbrev tree : Tree
tree = record {
  child = λ n. some (record {
    memory_region = some l3_memory;
    resource = record { start = 0x1000 * len n; size = 0x1000 };
  });
  ioremap = λ maps r. r.start + 2 ^ 40;
  read32 = λ p. 7;
  sprintf = λ n pbase size. len n + 35;
  uninitialised = pos 3;
}

abbrev char_dev : CharDev
char_dev = record { cdev_add = pos 0; device_create = 0x9000 }

abbrev bus : Bus
bus = record {
  kzalloc_data = true;
  kzalloc_buffer = true;
  tree = tree;
  of_irq_get = λ i. pos (30 + i);
  request_irq = λ irq. pos 0;
  has_desc = λ irq. true;
  mapped = λ a. true;
  iommu_present = true;
  iommu_domain_alloc = 0x5000;
  iommu_attach_device = pos 0;
  char_dev = char_dev;
}

abbrev idle : Held
idle = record {
  devices = record {
    total_devices = 0;
    device_num_base = 0xf00000;
    device_card = 0;
    cdevs = [];
    files = [];
  };
  domains = [];
  handlers = [];
  stores = [];
}

abbrev none_bound : Bound
none_bound = record { probing = fresh Field; dev_num = 0; iommu_domain = 0; iommu_maps = [] }

-- What the probe of device 1 gives.
unfoldable result : ℤ × Bound × Held
unfolding card_platform_driver_probe wake request_irqs store deisolate finish attach publish map_all
    probe_early probe_late probe_nodes probe_node reserve_l3 claim_l3 map_node print name
result = elim (card_platform_driver_probe true bus 1 idle) [
  | none ↦ (pos 1, none_bound, idle)
  | some (ret, none, h) ↦ (pos 1, none_bound, idle)
  | some (ret, some d, h) ↦ (ret, d, h)
]

abbrev bound : Bound
bound = result.1

abbrev held : Held
held = result.2

probe_run : card_platform_driver_probe true bus 1 idle ≡ some (pos 0, some bound, held)
unfolding card_platform_driver_probe wake request_irqs store deisolate finish attach publish map_all
    probe_early probe_late probe_nodes probe_node reserve_l3 claim_l3 map_node print name result
probe_run = refl

abbrev kernel : Kernel
kernel = record {
  copy_from_user = true;
  copy_to_user = true;
  kmalloc = true;
  order_base_2 = λ n. n;
  get_free_pages = λ order. 0x80000;
  virt_to_phys = λ v. v;
  get_user_pages_fast = λ start nr_pages. (pos nr_pages, λ i. 0);
  remap_pfn_range = λ m. pos 0;
}

abbrev device : Cardev
device = record {
  regions = regions_of bound.probing;
  test_head = [];
  iommu = record { calls = []; regions = [] };
}

abbrev asking : IoctlArg
asking = record { size = 0; result_phys_addr = 0; result_virt_addr = 0; mmap_id = MmapId.mboxes }

abbrev told : IoctlArg
told = record asking { size = 0x1000; result_phys_addr = 0x6000 }

infos_run : card_ioctl true kernel ioctl_mem_infos asking device ≡ some (pos 0, some told, device)
unfolding card_ioctl dispatch ioctl_infos lookup_region send_back card_platform_driver_probe wake
    request_irqs store deisolate finish attach publish map_all probe_early probe_late probe_nodes
    probe_node reserve_l3 claim_l3 map_node print name result
infos_run = refl

probe-mem_infos_example :
    (f : Field) × (m : SharedMem) × (field_at MmapId.mboxes ≡ some f)
    × IsBacked tree (name f) m
    × (0x1000 ≡ m.size)
    × (0x6000 ≡ m.pbase)
probe-mem_infos_example =
    probe-mem_infos true bus 1 idle (pos 0) bound held kernel device device asking told probe_run
      refl infos_run (omega arith)

formats : FormatsLine tree
formats n pbase size = omega arith

shorts : AreShort tree
shorts n node m there e =
    let is_l3 : l3_memory ≡ m = ground arith in subst IsShort is_l3 (omega arith)

probe-buffer_size_example :
    (bound.probing.buffer_size ≡ total tree bound.probing.buffer)
    × (bound.probing.buffer_size < pdata_size)
probe-buffer_size_example =
    probe-buffer_size true bus 1 idle (pos 0) bound held formats shorts probe_run

abbrev frees : ℕ → Bool
frees domain = not (domain == 0)

abbrev removed : Held
removed = record held {
  domains = [];
  devices = record held.devices { cdevs = []; files = []; total_devices = 0 };
}

remove_run : card_platform_driver_remove true frees bound held ≡ some (pos 0, removed)
unfolding card_platform_driver_remove unpublish card_platform_driver_probe wake request_irqs store
    deisolate finish attach publish map_all probe_early probe_late probe_nodes probe_node reserve_l3
    claim_l3 map_node print name result
remove_run = refl

probe-remove_example : card_platform_driver_remove true frees bound held ≡ some (pos 0, removed)
probe-remove_example =
    probe-remove true bus 1 idle bound held (omega arith) probe_run frees (omega arith) refl
      λ domain real. ground arith

-- The same device where the cdev is refused: its domain stays.
abbrev refusing : Bus
refusing = record bus { char_dev = record char_dev { cdev_add = neg enomem } }

unfoldable refused : Option Bound × Held
unfolding card_platform_driver_probe wake request_irqs store deisolate finish attach publish map_all
    probe_early probe_late probe_nodes probe_node reserve_l3 claim_l3 map_node print name
refused = elim (card_platform_driver_probe true refusing 1 idle) [
  | none ↦ (none, idle)
  | some (ret, d, h) ↦ (d, h)
]

refused_run :
    card_platform_driver_probe true refusing 1 idle ≡ some (neg enomem, refused.0, refused.1)
unfolding card_platform_driver_probe wake request_irqs store deisolate finish attach publish map_all
    probe_early probe_late probe_nodes probe_node reserve_l3 claim_l3 map_node print name refused
refused_run = refl

abbrev loaded : System
loaded = record { held = idle; bound = [] }

abbrev running : System
running = record { held = held; bound = bound ∷ [] }

loaded-IsConsistent : IsConsistent loaded
loaded-IsConsistent = record {
  published = λ n. refl;
  with_files = refl;
  counted = refl;
  owned = λ n real. omega arith;
}

Reach-IsConsistent_example : IsConsistent (record { held = removed; bound = [] })
Reach-IsConsistent_example =
    Reach-IsConsistent true frees loaded (record { held = removed; bound = [] })
      (next {t = running}
        (next {t = loaded} here (accepts bus 1 bound (omega arith) probe_run refl))
        (removes [] bound [] refl remove_run refl))
      loaded-IsConsistent

abbrev asleep : Handling
asleep = record { already_entered = λ i. false; cleared = [] }

abbrev calls : List ℕ
calls = 30 ∷ 31 ∷ 30 ∷ 30 ∷ []

handle_irqs-every_second_example :
    (rs : List (ℕ × IrqReturn)) × (h' : Handling) × (handle_irqs
        (λ i. some (19 + i % 4))
        calls
        asleep
      ≡ some (rs, h'))
    × ((i : ℕ)
        → 2 * handled i rs + half (h'.already_entered i)
          ≡ count i calls + half (asleep.already_entered i))
    × (h'.cleared ≡ asleep.cleared ++ bits (λ i. i % 4) rs)
handle_irqs-every_second_example =
    handle_irqs-every_second (λ i. some (19 + i % 4)) (λ i. i % 4) calls asleep (ground arith)
