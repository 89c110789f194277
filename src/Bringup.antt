-- ===== src/Bringup.antt =====
-- `hero_dev_mmap` of sw/libhero/src/carfield/spatz_cluster.c, sw/libhero/src/carfield/safety_island.c and
-- sw/libhero/src/occamy/snitch_cluster.c: a process maps the device's regions, notes the memories that
-- OpenMP may use, and sets up the two heaps over the upper halves of L2 and L3.
pub mod Ready
mod Tests
use hero_tools.Prelude.{
  ℕ, ◌+◌, ◌-◌, ◌*◌, ◌/◌, ◌%◌, ◌^◌, Bool, true, false, ◌||◌, Option, none, some, List, [], ◌∷◌, ◌==◌,
  if◌then◌else◌,
}
use hero_tools.Prelude.Int.{ℤ, pos, negsuc, is_nonzero}
use hero_tools.Prelude.Bits.{add64}
use hero_tools.Prelude.Partial.{◌>>=◌}
use hero_tools.Driver.{IoctlArg}
use hero_tools.User.{Syscalls, driver_lookup_mem, driver_lookup_mmap}
use hero_tools.DevHeap.{O1Heap, HeapVars, Heaps, hero_dev_l2_init, hero_dev_l3_init}
use hero_tools.Carfield.MmapId
use hero_tools.Occamy.MmapId as OccamyId

-- `HeroSubDev_t`, less its name and link.
pub record SubDev : Type 0 where
  pub v_addr : ℕ
  pub p_addr : ℕ
  pub size : ℕ

-- `ALIGN_UP(x, p)` on 64 bits, for a power of two `p`.
unfoldable pub align_up : (x p : ℕ) → ℕ
align_up x p = add64 x (p - 1) / p * p

-- The variables of a heap over the upper half of a memory of `size` bytes at `phys` and `virt`.
unfoldable pub upper_half : (o : O1Heap) → HeapVars o → (virt phys size : ℕ) → HeapVars o
upper_half o h virt phys size = record h {
  heap_start_phy = add64 phys (align_up (size / 2) o.alignment);
  heap_start_virt = add64 virt (align_up (size / 2) o.alignment);
  heap_size = size / 2;
}

-- A memory for OpenMP: the physical address is cut to 32 bits, and the size is an `unsigned`.
unfoldable pub sub_dev : (virt phys size : ℕ) → SubDev
sub_dev virt phys size = record { v_addr = virt; p_addr = phys % 2 ^ 32; size = size % 2 ^ 32 }

module _ {W : Type 0} (os : Syscalls W) (chunk : IoctlArg) (o : O1Heap) where
  -- What the process keeps: the address of each region by its number (`car_soc_ctrl` and so on), the
  -- heaps' variables, `dev->local_mems` and `dev->global_mems`.
  pub record Process : Type 0 where
    pub mapped : ℕ → ℕ
    pub heaps : Heaps o
    pub local_mems : Option SubDev
    pub global_mems : Option SubDev

  abbrev pub set_mapped : ℕ → ℕ → Process → Process
  set_mapped id res p = record p { mapped = λ i. if i == id then res else p.mapped i }

  -- The chain `if (driver_lookup_mmap(…)) goto error_driver;`: whether all are mapped.
  unfoldable pub map_regions : List ℕ → Process → W → Option (Bool × Process × W)
  map_regions [] p w = some (true, p, w)
  map_regions (id ∷ ids) p w = driver_lookup_mmap os chunk id w >>= λ (err, res, w').
      if is_nonzero err
      then some (false, set_mapped id res p, w')
      else map_regions ids (set_mapped id res p) w'

  -- The size and address that a lookup leaves in variables that held `unset id`: its result is
  -- ignored.
  unfoldable pub lookup : (unset : ℕ → ℕ × ℕ) → ℕ → W → Option ((ℕ × ℕ) × W)
  lookup unset id w = driver_lookup_mem os chunk id w >>= λ (err, found, w').
      some (elim found [ none ↦ unset id | some sa ↦ sa ], w')

  -- The L2 heap and then the L3 heap over `l3_id`: the result is that of the first set-up that fails.
  -- `after_l2` is what the program does between.
  unfoldable pub l3_heap :
      (unset : ℕ → ℕ × ℕ) (l3_id : ℕ) → Process → W → Option (ℤ × Process × (ℕ × ℕ) × W)
  l3_heap unset l3_id p w = lookup unset l3_id w >>= λ ((size, phys), w').
      let g : Heaps o = record p.heaps {
        l3 = upper_half o p.heaps.l3 (p.mapped l3_id) phys size;
      } in
      let (err, g') = hero_dev_l3_init o g in some (err, record p { heaps = g' }, (size, phys), w')

  unfoldable pub l2_heap : (virt phys size : ℕ) → Process → ℤ × Process
  l2_heap virt phys size p =
      let g : Heaps o = record p.heaps { l2 = upper_half o p.heaps.l2 virt phys size } in
      let (err, g') = hero_dev_l2_init o g in (err, record p { heaps = g' })

  -- The halves of L2, and L3's heap: the part of the two Carfield programs behind the local memory.
  -- Whether `malloc` gives the list entry is `malloc_l2`.
  unfoldable pub carfield_heaps :
      (unset : ℕ → ℕ × ℕ) (malloc_l2 : Bool) → Process → W → Option (ℤ × Process × W)
  carfield_heaps unset malloc_l2 p w = lookup unset MmapId.l2_intl_0 w >>= λ ((size, phys), w1).
      let virt = p.mapped MmapId.l2_intl_0 in
      let p1 : Process = record p { global_mems = some (sub_dev virt phys (size / 2)) } in
      let (err, p2) = l2_heap virt phys size p1 in
      if malloc_l2
      then (if is_nonzero err
          then some (err, p2, w1)
          else (l3_heap unset MmapId.l3 p2 w1 >>= λ (err', p3, l3, w2). some (err', p3, w2)))
      else some (negsuc 0, p, w1)

  -- The body that the two Carfield programs share: the regions, the local memory's number and size,
  -- and whether `malloc` gives the two list entries.
  unfoldable pub carfield_mmap :
      (ids : List ℕ) (local_id : ℕ) (local_size : ℕ → ℕ) (unset : ℕ → ℕ × ℕ)
      (malloc_local malloc_l2 : Bool)
      → Process
      → W
      → Option (ℤ × Process × W)
  carfield_mmap ids local_id local_size unset malloc_local malloc_l2 p w =
      map_regions ids p w >>= λ (ok, p1, w1).
      if ok
      then (lookup unset local_id w1 >>= λ ((size, phys), w2).
          let p2 : Process = record p1 {
            local_mems = some (sub_dev (p1.mapped local_id) phys (local_size size));
          } in
          if malloc_local then carfield_heaps unset malloc_l2 p2 w2 else some (negsuc 0, p1, w2))
      else some (negsuc 0, p1, w1)

  unfoldable pub spatz_hero_dev_mmap :
      (unset : ℕ → ℕ × ℕ) (malloc_local malloc_l2 : Bool) → Process → W → Option (ℤ × Process × W)
  spatz_hero_dev_mmap =
      carfield_mmap
        (MmapId.soc_ctrl ∷ MmapId.mboxes ∷ MmapId.ctrl_regs ∷ MmapId.l2_intl_0 ∷ MmapId.l2_cont_0
          ∷ MmapId.l2_intl_1 ∷ MmapId.l2_cont_1 ∷ MmapId.l3 ∷ MmapId.idma ∷ MmapId.spatz_cluster
          ∷ [])
        MmapId.spatz_cluster (λ size. 0x20000)

  unfoldable pub safety_island_hero_dev_mmap :
      (unset : ℕ → ℕ × ℕ) (malloc_local malloc_l2 : Bool) → Process → W → Option (ℤ × Process × W)
  safety_island_hero_dev_mmap =
      carfield_mmap
        (MmapId.soc_ctrl ∷ MmapId.ctrl_regs ∷ MmapId.l2_intl_0 ∷ MmapId.l2_cont_0 ∷ MmapId.l2_intl_1
          ∷ MmapId.l2_cont_1 ∷ MmapId.l3 ∷ MmapId.idma ∷ MmapId.safety_island ∷ [])
        MmapId.safety_island (λ size. size)

  -- The chain `err |= driver_lookup_mmap(…);`: whether all are mapped.
  unfoldable pub map_all : List ℕ → Process → W → Option (Bool × Process × W)
  map_all [] p w = some (true, p, w)
  map_all (id ∷ ids) p w = driver_lookup_mmap os chunk id w >>= λ (err, res, w').
      map_all ids (set_mapped id res p) w' >>= λ (ok, p', w'').
      some (if is_nonzero err then false else ok, p', w'')

  unfoldable pub snitch_hero_dev_mmap :
      (opened : Bool) (unset : ℕ → ℕ × ℕ) (malloc_local malloc_l3 : Bool)
      → Process
      → W
      → Option (ℤ × Process × W)
  snitch_hero_dev_mmap opened unset malloc_local malloc_l3 p w =
      if opened
      then (map_all
            (OccamyId.snitch_cluster ∷ OccamyId.quadrant_ctrl ∷ OccamyId.soc_ctrl ∷ OccamyId.l3
              ∷ OccamyId.scratchpad_wide ∷ OccamyId.clint ∷ [])
            p w
          >>= λ (ok, p1, w1).
              if ok
              then (lookup unset OccamyId.snitch_cluster w1 >>= λ ((size, phys), w2).
                  if malloc_local
                  then (let p2 : Process = record p1 {
                    local_mems = some (sub_dev (p1.mapped OccamyId.snitch_cluster) phys size);
                  } in
                      lookup unset OccamyId.scratchpad_wide w2 >>= λ ((l2_size, l2_phys), w3).
                      let (err, p3) =
                        l2_heap (p2.mapped OccamyId.scratchpad_wide) l2_phys l2_size p2 in
                      if is_nonzero err
                      then some (err, p3, w3)
                      else (l3_heap unset OccamyId.l3 p3 w3
                          >>= λ (err', p4, (l3_size, l3_phys), w4).
                              if is_nonzero err'
                              then some (err', p4, w4)
                              else if malloc_l3
                              then some (
                                err',
                                record p4 {
                                  global_mems =
                                      some (sub_dev (p4.mapped OccamyId.l3) l3_phys (l3_size / 2));
                                },
                                w4,
                              )
                              else some (negsuc 0, p4, w4)))
                  else some (negsuc 0, p1, w2))
              else some (negsuc 0, p1, w1))
      else some (negsuc 0, p, w)
