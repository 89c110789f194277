-- ===== src/Bringup/Ready.antt =====
-- What a process has after a `hero_dev_mmap` that returns 0.
use hero_tools.Prelude.{
  ℕ, ◌+◌, ◌/◌, ◌%◌, ◌^◌, ◌<◌, ◌≡◌, ◌≢◌, refl, ◌∙◌, ap, sym, inl, inr, Bool, true, false, Option,
  none, some, arith, if◌then◌else◌, Option-cases, List,
}
use mathlib.Core.Path.{subst}
use hero_tools.Prelude.Int.{ℤ, pos, negsuc, is_nonzero}
use hero_tools.Prelude.Bits.{add64}
use hero_tools.Prelude.Partial.{◌>>=◌}
use hero_tools.Driver.{IoctlArg}
use hero_tools.User.{Syscalls}
use hero_tools.DevHeap.{O1Heap, HeapVars, hero_dev_l2_init, hero_dev_l3_init, heap_init}
use hero_tools.Carfield.MmapId
use hero_tools.Bringup.{
  align_up, upper_half, sub_dev, Process, map_regions, lookup, l2_heap, l3_heap, carfield_heaps,
  carfield_mmap,
}

align_up_32 : (k : ℕ) → k % 32 ≡ 0 → k < 2 ^ 63 → align_up k 32 ≡ k
unfolding align_up
align_up_32 k parts fits = omega arith

-- A heap over the upper half of a memory ends with the memory and starts at its middle, in both
-- address spaces, if the memory does not wrap in either, the allocator's alignment is 32, and the
-- memory's size is a multiple of 64.
upper_half-inside :
    (o : O1Heap) (h : HeapVars o) (virt phys size : ℕ)
    → let h' = upper_half o h virt phys size in
      o.alignment ≡ 32
      → size % 64 ≡ 0
      → virt + size < 2 ^ 64
      → phys + size < 2 ^ 64
      → (h'.heap_start_phy ≡ phys + size / 2)
        × (h'.heap_start_virt ≡ virt + size / 2)
        × (h'.heap_start_phy + h'.heap_size ≡ phys + size)
        × (h'.heap_start_virt + h'.heap_size ≡ virt + size)
unfolding upper_half
upper_half-inside o h virt phys size aligned parts virt_fits phys_fits =
    let same : align_up (size / 2) o.alignment ≡ size / 2 =
      ap (align_up (size / 2)) aligned ∙ align_up_32 (size / 2) (omega arith) (omega arith) in
    rw same (omega arith, omega arith, omega arith, omega arith)

-- Any other even size takes the heap beyond the end of the memory.
upper_half-beyond :
    (o : O1Heap) (h : HeapVars o) (virt phys size : ℕ)
    → let h' = upper_half o h virt phys size in
      o.alignment ≡ 32
      → size % 64 ≢ 0
      → size % 2 ≡ 0
      → phys + size + 64 < 2 ^ 64
      → phys + size < h'.heap_start_phy + h'.heap_size
unfolding upper_half align_up
upper_half-beyond o h virt phys size aligned parts even phys_fits =
    subst (λ a. phys + size < add64 phys (align_up (size / 2) a) + size / 2) (sym aligned)
      (omega arith)

-- How the two set-ups in a row come to the result 0.
both_up :
    {P V L : Type 0} (malloc_l2 : Bool) (err : ℤ) (p p2 p' : P) (w1 w' : V)
    (l3_set_up : Option (ℤ × P × L × V))
    → (if◌then◌else◌ {A = Option (ℤ × P × V)} malloc_l2
        (if◌then◌else◌ {A = Option (ℤ × P × V)}
          (is_nonzero err)
          (some (err, p2, w1))
          (l3_set_up >>= λ (err', p3, l3, w2). some (err', p3, w2)))
        (some (negsuc 0, p, w1)))
      ≡ some (pos 0, p', w')
    → (is_nonzero err ≡ false) × (l3 : L) × (w2 : V) × (l3_set_up ≡ some (pos 0, p', l3, w2))
both_up false err p p2 p' w1 w' l3_set_up e = absurd (ground arith)
both_up true err p p2 p' w1 w' none e = absurd (ground arith)
both_up true err p p2 p' w1 w' (some (err', p3, l3, w2)) e = (ground arith, l3, w2, ground arith)

no_error :
    {P V : Type 0} (malloc_ok : Bool) (rest : Option (ℤ × P × V)) (p p' : P) (w w' : V)
    → (if◌then◌else◌ {A = Option (ℤ × P × V)} malloc_ok rest (some (negsuc 0, p, w)))
      ≡ some (pos 0, p', w')
    → rest ≡ some (pos 0, p', w')
no_error false rest p p' w w' e = absurd (ground arith)
no_error true rest p p' w w' e = e

module _ {W : Type 0} (os : Syscalls W) (chunk : IoctlArg) (o : O1Heap) where
  -- The two halves of L2: the lower for OpenMP, the upper under a heap that is set up.
  pub record HasHalves (p : Process os chunk o) : Type 0 where
    pub size : ℕ
    pub phys : ℕ
    pub lower : p.global_mems ≡ some (sub_dev (p.mapped MmapId.l2_intl_0) phys (size / 2))
    pub start_phy : p.heaps.l2.heap_start_phy ≡ add64 phys (align_up (size / 2) o.alignment)
    pub start_virt :
        p.heaps.l2.heap_start_virt
        ≡ add64 (p.mapped MmapId.l2_intl_0) (align_up (size / 2) o.alignment)
    pub heap_size : p.heaps.l2.heap_size ≡ size / 2
    pub l2_up : p.heaps.l2.heap_manager ≢ none
    pub l3_up : p.heaps.l3.heap_manager ≢ none

  -- A set-up that returns 0 leaves an allocator, and never moves the heap.
  heap_init-up :
      (h : HeapVars o)
      → let (r, h') = heap_init o h in
        (is_nonzero r ≡ false → h'.heap_manager ≢ none)
        × (h'.heap_start_phy ≡ h.heap_start_phy)
        × (h'.heap_start_virt ≡ h.heap_start_virt)
        × (h'.heap_size ≡ h.heap_size)
  unfolding heap_init
  heap_init-up h = ground arith

  l2_heap-up :
      (virt phys size : ℕ) (p : Process os chunk o)
      → let (r, p') = l2_heap os chunk o virt phys size p in
        (is_nonzero r ≡ false → p'.heaps.l2.heap_manager ≢ none)
        × (p'.heaps.l2.heap_start_phy ≡ add64 phys (align_up (size / 2) o.alignment))
        × (p'.heaps.l2.heap_start_virt ≡ add64 virt (align_up (size / 2) o.alignment))
        × (p'.heaps.l2.heap_size ≡ size / 2)
        × (p'.mapped ≡ p.mapped)
        × (p'.global_mems ≡ p.global_mems)
  unfolding l2_heap hero_dev_l2_init upper_half
  l2_heap-up virt phys size p =
      let (up, at_phy, at_virt, sized) = heap_init-up (upper_half o p.heaps.l2 virt phys size) in
      (up, at_phy, at_virt, sized, refl, refl)

  l3_heap-up :
      (unset : ℕ → ℕ × ℕ) (l3_id : ℕ) (p p' : Process os chunk o) (l3 : ℕ × ℕ) (w w' : W)
      → l3_heap os chunk o unset l3_id p w ≡ some (pos 0, p', l3, w')
      → (p'.heaps.l3.heap_manager ≢ none)
        × (p'.heaps.l2 ≡ p.heaps.l2)
        × (p'.mapped ≡ p.mapped)
        × (p'.global_mems ≡ p.global_mems)
  unfolding l3_heap hero_dev_l3_init
  l3_heap-up unset l3_id p p' l3 w w' e = elim (Option-cases (lookup os chunk o unset l3_id w)) [
    | inl none_there ↦ absurd (ground arith)
    | inr (((size, phys), w1), there) ↦
        let h = upper_half o p.heaps.l3 (p.mapped l3_id) phys size in
        let (up, _, _, _) = heap_init-up h in
        let same : some (
          (heap_init o h).0,
          record p { heaps = record p.heaps { l3 = (heap_init o h).1 } },
          (size, phys),
          w1,
        )
            ≡ some (pos 0, p', l3, w') =
          rw there at e in
        let is_r : (heap_init o h).0 ≡ pos 0 =
          ap (λ x. elim x [ none ↦ pos 0 | some (r, q, l, v) ↦ r ]) same in
        let is_p : record p { heaps = record p.heaps { l3 = (heap_init o h).1 } } ≡ p' =
          ap (λ x. elim x [ none ↦ p' | some (r, q, l, v) ↦ q ]) same in
        subst
          (λ q.
            (q.heaps.l3.heap_manager ≢ none)
            × (q.heaps.l2 ≡ p.heaps.l2)
            × (q.mapped ≡ p.mapped)
            × (q.global_mems ≡ p.global_mems))
          is_p (up (rw is_r refl), refl, refl, refl)
  ]

  heaps-HasHalves :
      (unset : ℕ → ℕ × ℕ) (malloc_l2 : Bool) (p p' : Process os chunk o) (w w' : W)
      → carfield_heaps os chunk o unset malloc_l2 p w ≡ some (pos 0, p', w')
      → HasHalves p'
  unfolding carfield_heaps
  heaps-HasHalves unset malloc_l2 p p' w w' e =
      elim (Option-cases (lookup os chunk o unset MmapId.l2_intl_0 w)) [
        | inl none_there ↦ absurd (ground arith)
        | inr (((size, phys), w1), c) ↦
            let virt = p.mapped MmapId.l2_intl_0 in
            let p1 : Process os chunk o = record p {
              global_mems = some (sub_dev virt phys (size / 2));
            } in
            let (err, p2) = l2_heap os chunk o virt phys size p1 in
            let (up, at_phy, at_virt, sized, same_maps, same_mems) = l2_heap-up virt phys size p1 in
            let (ok, l3, w2, c3) =
              both_up malloc_l2 err p p2 p' w1 w' (l3_heap os chunk o unset MmapId.l3 p2 w1)
                (rw c at e) in
            let (up3, kept, kept_maps, kept_mems) = l3_heap-up unset MmapId.l3 p2 p' l3 w1 w2 c3 in
            record {
              size = size;
              phys = phys;
              lower =
                  kept_mems
                  ∙ same_mems
                  ∙ ap (λ m. some (sub_dev (m MmapId.l2_intl_0) phys (size / 2)))
                      (sym (kept_maps ∙ same_maps));
              start_phy = ap (λ h. h.heap_start_phy) kept ∙ at_phy;
              start_virt =
                  ap (λ h. h.heap_start_virt) kept
                  ∙ at_virt
                  ∙ ap (λ m. add64 (m MmapId.l2_intl_0) (align_up (size / 2) o.alignment))
                      (sym (kept_maps ∙ same_maps));
              heap_size = ap (λ h. h.heap_size) kept ∙ sized;
              l2_up = subst (λ h. h.heap_manager ≢ none) (sym kept) (up ok);
              l3_up = up3;
            }
      ]

  -- A `hero_dev_mmap` of Carfield that returns 0 leaves both heaps set up, and has divided one
  -- memory, of some size and physical address, at the virtual address of the L2 region: OpenMP
  -- gets its lower half, and the L2 heap's variables are over its upper half, which starts
  -- aligned up at one offset in both address spaces.
  pub carfield_mmap-HasHalves :
      (ids : List ℕ) (local_id : ℕ) (local_size : ℕ → ℕ) (unset : ℕ → ℕ × ℕ)
      (malloc_local malloc_l2 : Bool) (p p' : Process os chunk o) (w w' : W)
      → carfield_mmap os chunk o ids local_id local_size unset malloc_local malloc_l2 p w
        ≡ some (pos 0, p', w')
      → HasHalves p'
  unfolding carfield_mmap
  carfield_mmap-HasHalves ids local_id local_size unset malloc_local malloc_l2 p p' w w' e =
      elim (Option-cases (map_regions os chunk o ids p w)) [
        | inl none_there ↦ absurd (ground arith)
        | inr ((false, p1, w1), c1) ↦ absurd (ground arith)
        | inr ((true, p1, w1), c1) ↦ elim (Option-cases (lookup os chunk o unset local_id w1)) [
          | inl none_there ↦ absurd (ground arith)
          | inr (((size, phys), w2), c2) ↦
              heaps-HasHalves unset malloc_l2
                (record p1 {
                  local_mems = some (sub_dev (p1.mapped local_id) phys (local_size size));
                })
                p' w2 w' (no_error malloc_local _ p1 p' w2 w' (rw (c1, c2) at e))
        ]
      ]
