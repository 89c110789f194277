-- ===== src/DevHeap/Tests.antt =====
-- The heaps over an allocator that hands out one block after another.
use hero_tools.Prelude.{ℕ, ◌+◌, ◌-◌, ◌≤◌, ◌≡◌, refl, arith, none, some}
use hero_tools.Ring.{RingBuf, rb_init}
use hero_tools.DevHeap.{O1Heap, HeapVars, Heaps, heap_malloc, hero_dev_l2_malloc}
use hero_tools.DevHeap.Address.{IsPlaced, heap_malloc-offset}
use hero_tools.DevHeap.Mboxes.{Mbox, Device, alloc_mbox, below_null, hero_dev_alloc_mboxes}

-- The instance is the address of the next block.
abbrev bump : O1Heap
bump = record {
  alignment = 32;
  Instance = ℕ;
  init = λ base size. some base;
  allocate = λ i size. (i, i + 64);
  free = λ i p. i;
}

abbrev heap : HeapVars bump
heap = record {
  heap_manager = some 5000;
  heap_start_phy = 1000;
  heap_start_virt = 5000;
  heap_size = 4096;
}

heap-IsPlaced : IsPlaced bump heap
heap-IsPlaced = record { virt_pos = omega arith; virt_fits = omega arith; phy_fits = omega arith }

heap_malloc_run :
    heap_malloc bump heap 40 ≡ some (5000, 1000, record heap { heap_manager = some 5064 })
unfolding heap_malloc
heap_malloc_run = refl

heap_malloc-offset_example : (5000 - 5000 ≡ 1000 - 1000) × (1000 ≤ 1000) × (1000 + 40 ≤ 1000 + 4096)
heap_malloc-offset_example =
    heap_malloc-offset bump heap 40 5000 1000 heap-IsPlaced (omega arith, omega arith) (omega arith)
      heap_malloc_run

-- L2 is set up, L3 not yet.
abbrev heaps : Heaps bump
heaps = record { l2 = heap; l3 = record heap { heap_manager = none } }

abbrev no_ring : RingBuf
no_ring = record { head = 0; size = 0; tail = 0; element_size = 0; data_v = 0; data_p = 0 }

abbrev no_mbox : Mbox
no_mbox = record { mbox = 0; p_addr = 0 }

abbrev device : Device bump
device = record {
  heaps = heaps;
  rings = λ p. no_ring;
  mboxes = record { a2h = no_mbox; h2a = no_mbox; rb = no_mbox };
}

-- The device behind `hero_dev_alloc_mboxes`.
unfoldable allocated : Device bump
unfolding hero_dev_alloc_mboxes alloc_mbox hero_dev_l2_malloc heap_malloc below_null rb_init
allocated = elim (hero_dev_alloc_mboxes bump device) [ none ↦ device | some (r, d) ↦ d ]

-- A device with the three structs, one after another.
abbrev with_mboxes : Device bump
with_mboxes = record device {
  mboxes = record {
    h2a = record { mbox = 5000; p_addr = 1000 };
    a2h = record { mbox = 5128; p_addr = 1128 };
    rb = record { mbox = 5256; p_addr = 1256 };
  };
}
