-- ===== src/DevHeap/Address.antt =====
-- The device heaps: set-up, and the physical addresses that the allocators hand out.
use hero_tools.Prelude.{ℕ, ◌+◌, ◌-◌, ◌^◌, ◌≤◌, ◌<◌, ◌≡◌, ◌⊎◌, refl, none, some, arith}
use hero_tools.Prelude.Int.{ℤ, pos, negsuc, neg, enomem}
use hero_tools.DevHeap.{
  O1Heap, HeapVars, Heaps, heap_init, heap_malloc, hero_dev_l2_init, hero_dev_l3_init,
}

module _ (o : O1Heap) where
  -- The heap lies where the 64-bit addresses do not wrap, in both address spaces, and not at NULL.
  pub record IsPlaced (h : HeapVars o) : Type 0 where
    pub virt_pos : 0 < h.heap_start_virt
    pub virt_fits : h.heap_start_virt + h.heap_size ≤ 2 ^ 64
    pub phy_fits : h.heap_start_phy + h.heap_size ≤ 2 ^ 64

  -- What o1heap documents of a block: NULL, or bytes inside the arena that `o1heapInit` was given.
  abbrev pub InArena : HeapVars o → (ptr size_b : ℕ) → Type 0
  InArena h ptr size_b =
      (h.heap_start_virt ≤ ptr) × (ptr + size_b ≤ h.heap_start_virt + h.heap_size)

  -- A malloc on a heap that wraps in neither address space, if the allocator gives a block inside
  -- its arena, tells a physical address that is as far into the heap as the virtual one, and the
  -- whole block lies inside the heap's physical range. The block has at least one byte.
  pub heap_malloc-offset :
      (h : HeapVars o) (size_b v p : ℕ) {h' : HeapVars o}
      → IsPlaced h
      → InArena h v size_b
      → 0 < size_b
      → heap_malloc o h size_b ≡ some (v, p, h')
      → (v - h.heap_start_virt ≡ p - h.heap_start_phy)
        × (h.heap_start_phy ≤ p)
        × (p + size_b ≤ h.heap_start_phy + h.heap_size)
  unfolding heap_malloc
  heap_malloc-offset h size_b v p placed arena some_b e = ground arith

  -- A malloc that finds none returns NULL, and a physical address that is no NULL: the callers cannot
  -- tell by it.
  heap_malloc_null :
      (h : HeapVars o) (size_b p : ℕ) {h' : HeapVars o}
      → IsPlaced h
      → 0 < h.heap_size
      → h.heap_start_phy < h.heap_start_virt
      → heap_malloc o h size_b ≡ some (0, p, h')
      → p ≡ 2 ^ 64 + h.heap_start_phy - h.heap_start_virt
  unfolding heap_malloc
  heap_malloc_null h size_b p placed some_b below e = ground arith

  -- What a set-up leaves: a heap with an allocator and the status 0, or the heap as it was, still
  -- without one, and a negative status.
  abbrev pub SetUp : (h h' : HeapVars o) → ℤ → Type 0
  SetUp h h' r =
      ((i : o.Instance) × (h'.heap_manager ≡ some i) × (r ≡ pos 0))
      ⊎ ((h' ≡ h) × (h.heap_manager ≡ none) × ((r ≡ negsuc 0) ⊎ (r ≡ neg enomem)))

  heap_init-SetUp : (h : HeapVars o) → SetUp h (heap_init o h).1 (heap_init o h).0
  unfolding heap_init
  heap_init-SetUp h = ground arith

  -- A second set-up changes nothing and returns 0.
  heap_init_twice :
      (h : HeapVars o) (i : o.Instance) → h.heap_manager ≡ some i → heap_init o h ≡ (pos 0, h)
  unfolding heap_init
  heap_init_twice h i e = ground arith

  -- `hero_dev_l2_init` and `hero_dev_l3_init` each leave their heap with an allocator and return
  -- 0, or leave it as it was, without one, and return -1 or -ENOMEM; each leaves the other heap
  -- alone.
  l2_l3_init-SetUp :
      (g : Heaps o)
      → let (r2, g2) = hero_dev_l2_init o g in
        let (r3, g3) = hero_dev_l3_init o g in
        SetUp g.l2 g2.l2 r2 × (g2.l3 ≡ g.l3) × SetUp g.l3 g3.l3 r3 × (g3.l2 ≡ g.l2)
  unfolding hero_dev_l2_init hero_dev_l3_init
  l2_l3_init-SetUp g = (heap_init-SetUp g.l2, refl, heap_init-SetUp g.l3, refl)
