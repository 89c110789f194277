-- ===== src/Control/Init/Tests.antt =====
-- A Carfield device that is told where its mailboxes are.
use hero_tools.Prelude.{ℕ, ◌+◌, ◌≡◌, refl, none, some, []}
use hero_tools.Prelude.Int.{ℤ, pos}
use hero_tools.Ring.{RingBuf, rb_init}
use hero_tools.DevHeap.{O1Heap, HeapVars, Heaps, heap_malloc, hero_dev_l2_malloc}
use hero_tools.DevHeap.Mboxes.{Mbox, Device, alloc_mbox, below_null, hero_dev_alloc_mboxes}
use hero_tools.Control.{Hw, Bus, writew}
use hero_tools.Control.Init.{carfield_hero_dev_init}

-- The instance is the address of the next block.
abbrev bump : O1Heap
bump = record {
  alignment = 32;
  Instance = ℕ;
  init = λ base size. some base;
  allocate = λ i size. (i, i + 64);
  free = λ i p. i;
}

abbrev heap : HeapVars bump
heap = record {
  heap_manager = some 5000;
  heap_start_phy = 1000;
  heap_start_virt = 5000;
  heap_size = 4096;
}

-- L2 is set up, L3 not yet.
abbrev heaps : Heaps bump
heaps = record { l2 = heap; l3 = record heap { heap_manager = none } }

abbrev no_ring : RingBuf
no_ring = record { head = 0; size = 0; tail = 0; element_size = 0; data_v = 0; data_p = 0 }

abbrev no_mbox : Mbox
no_mbox = record { mbox = 0; p_addr = 0 }

abbrev device : Device bump
device = record {
  heaps = heaps;
  rings = λ p. no_ring;
  mboxes = record { a2h = no_mbox; h2a = no_mbox; rb = no_mbox };
}

-- Registers that forget.
abbrev hw : Hw ℕ
hw = record { on_write = λ block offset value s. s; on_read = λ block offset s. (0, s) }

abbrev bus : Bus ℕ
bus = record { device = 0; trace = [] }

unfoldable told_device : ℤ × Device bump × Bus ℕ
told_device = elim (carfield_hero_dev_init hw bump device bus) [
  | none ↦ (pos 0, device, bus)
  | some out ↦ out
]

init_run : carfield_hero_dev_init hw bump device bus ≡ some (pos 0, told_device.1, told_device.2)
unfolding carfield_hero_dev_init writew hero_dev_alloc_mboxes alloc_mbox hero_dev_l2_malloc
    heap_malloc below_null rb_init told_device
init_run = refl
