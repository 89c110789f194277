-- ===== src/Bringup/Tests.antt =====
-- A bring-up with regions of 64 KiB.
use hero_tools.Prelude.{ℕ, ◌+◌, ◌*◌, ◌≡◌, refl, true, none, some, [], ◌∷◌}
use hero_tools.Prelude.Int.{pos}
use hero_tools.Driver.{IoctlArg}
use hero_tools.User.{Syscalls, driver_lookup_mem, driver_mmap, driver_lookup_mmap}
use hero_tools.DevHeap.{O1Heap, HeapVars, hero_dev_l2_init, hero_dev_l3_init, heap_init}
use hero_tools.Bringup.{
  upper_half, align_up, Process, map_regions, lookup, l2_heap, l3_heap, carfield_heaps,
  carfield_mmap,
}
use hero_tools.Bringup.Ready.{HasHalves, carfield_mmap-HasHalves}
use hero_tools.Carfield.MmapId

abbrev bump : O1Heap
bump = record {
  alignment = 32;
  Instance = ℕ;
  init = λ base size. some base;
  allocate = λ i size. (i, i + 64);
  free = λ i p. i;
}

abbrev heap : HeapVars bump
heap = record { heap_manager = none; heap_start_phy = 0; heap_start_virt = 0; heap_size = 0 }

abbrev chunk : IoctlArg
chunk = record { size = 0; result_phys_addr = 0; result_virt_addr = 0; mmap_id = 0 }

-- Every region has 64 KiB, and its number says where it lies.
abbrev os : Syscalls ℕ
os = record {
  ioctl = λ c arg w.
      some
        (pos 0, record arg { size = 0x10000; result_phys_addr = 0x100000 * (1 + arg.mmap_id) }, w);
  mmap = λ length offset w. some (some (0x5000000 + 16 * offset), w + 1);
}

abbrev process : Process os chunk bump
process = record {
  mapped = λ id. 0;
  heaps = record { l2 = heap; l3 = heap };
  local_mems = none;
  global_mems = none;
}

unfoldable ready : Process os chunk bump
ready =
    elim (carfield_mmap os chunk bump (MmapId.l2_intl_0 ∷ MmapId.l3 ∷ MmapId.spatz_cluster ∷ [])
      MmapId.spatz_cluster (λ size. 0x20000) (λ id. (0, 0)) true true process 0) [
        | none ↦ process
        | some (r, p, w) ↦ p
      ]

mmap_run :
    carfield_mmap os chunk bump
      (MmapId.l2_intl_0 ∷ MmapId.l3 ∷ MmapId.spatz_cluster ∷ [])
      MmapId.spatz_cluster
      (λ size. 0x20000)
      (λ id. (0, 0))
      true
      true
      process
      0
    ≡ some (pos 0, ready, 3)
unfolding carfield_mmap carfield_heaps l2_heap l3_heap lookup map_regions driver_lookup_mmap
    driver_lookup_mem driver_mmap hero_dev_l2_init hero_dev_l3_init heap_init upper_half align_up
    ready
mmap_run = refl

carfield_mmap-HasHalves_example : HasHalves os chunk bump ready
carfield_mmap-HasHalves_example =
    carfield_mmap-HasHalves os chunk bump (MmapId.l2_intl_0 ∷ MmapId.l3 ∷ MmapId.spatz_cluster ∷ [])
      MmapId.spatz_cluster (λ size. 0x20000) (λ id. (0, 0)) true true process ready 0 3 mmap_run
