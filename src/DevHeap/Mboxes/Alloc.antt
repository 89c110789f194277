-- ===== src/DevHeap/Mboxes/Alloc.antt =====
-- What `hero_dev_alloc_mboxes` leaves and `hero_dev_free_mboxes` gives back.
use hero_tools.Prelude.{ℕ, ◌≡◌, ◌≢◌, refl, some, List, [], ◌∷◌, arith}
use hero_tools.Prelude.Int.{ℤ, pos}
use hero_tools.Prelude.Partial.{Ensures, Ensures-bind}
use hero_tools.Ring.{rb_init}
use hero_tools.DevHeap.{O1Heap, hero_dev_l2_free, heap_free}
use hero_tools.DevHeap.Mboxes.{
  Mbox, Device, alloc_mbox, below_null, hero_dev_alloc_mboxes, free_mbox, hero_dev_free_mboxes,
}

module _ (o : O1Heap) where
  alloc_mbox-ne-null : (dev : Device o) → Ensures (λ (m, _). m.mbox ≢ 0) (alloc_mbox o dev)
  unfolding alloc_mbox
  alloc_mbox-ne-null dev = ground arith

  -- An empty buffer of 16 words of four bytes, reached by a pointer that is not NULL.
  pub record IsFresh (dev : Device o) (m : Mbox) : Type 0 where
    pub ne_null : m.mbox ≢ 0
    pub empty : (dev.rings m.mbox).head ≡ (dev.rings m.mbox).tail
    pub size : (dev.rings m.mbox).size ≡ 16
    pub element_size : (dev.rings m.mbox).element_size ≡ 4

  pub record IsReady (out : ℤ × Device o) : Type 0 where
    pub status : out.0 ≡ pos 0
    pub a2h : IsFresh out.1 out.1.mboxes.a2h
    pub h2a : IsFresh out.1 out.1.mboxes.h2a
    pub rb : IsFresh out.1 out.1.mboxes.rb

  hero_dev_alloc_mboxes-IsReady : (dev : Device o) → Ensures IsReady (hero_dev_alloc_mboxes o dev)
  unfolding hero_dev_alloc_mboxes below_null rb_init
  hero_dev_alloc_mboxes-IsReady dev =
      Ensures-bind _ _ (alloc_mbox o dev) _ (alloc_mbox-ne-null dev) λ (h2a, d1) n1.
        Ensures-bind _ _ (alloc_mbox o d1) _ (alloc_mbox-ne-null d1) λ (a2h, d2) n2.
          Ensures-bind _ _ (alloc_mbox o d2) _ (alloc_mbox-ne-null d2)
            λ (rb, d3) n3. ground (arith, n1, n2, n3)

  pub alloc_mboxes-IsReady :
      (dev dev' : Device o) (r : ℤ)
      → hero_dev_alloc_mboxes o dev ≡ some (r, dev')
      → IsReady (r, dev')
  alloc_mboxes-IsReady dev dev' r e = rw e at (hero_dev_alloc_mboxes-IsReady dev)

  -- The blocks given back, in order.
  abbrev pub free_all : o.Instance → List ℕ → o.Instance
  free_all i [] = i
  free_all i (p ∷ ps) = free_all (o.free i p) ps

  abbrev pub freed : Device o → o.Instance → Device o
  freed dev i = record dev {
    heaps = record dev.heaps { l2 = record dev.heaps.l2 { heap_manager = some i } };
  }

  free_mbox-freed :
      (dev : Device o) (m : Mbox) (i : o.Instance)
      → dev.heaps.l2.heap_manager ≡ some i
      → m.mbox ≢ 0
      → free_mbox o m dev ≡ some (freed dev (o.free (o.free i (dev.rings m.mbox).data_v) m.mbox))
  unfolding free_mbox hero_dev_l2_free heap_free
  free_mbox-freed dev m i e ne = ground arith

  -- `hero_dev_free_mboxes`, on a set-up L2 heap and three mailboxes that are not NULL, returns 0,
  -- gives back each data array and then its struct, first those of `h2a_mbox`, then of
  -- `a2h_mbox`, then of `rb_mbox`, and changes nothing else.
  free_mboxes_order :
      (dev : Device o) (i : o.Instance)
      → dev.heaps.l2.heap_manager ≡ some i
      → dev.mboxes.h2a.mbox ≢ 0
      → dev.mboxes.a2h.mbox ≢ 0
      → dev.mboxes.rb.mbox ≢ 0
      → hero_dev_free_mboxes o dev
        ≡ some (
          pos 0,
          freed dev (
              free_all i (
                (dev.rings dev.mboxes.h2a.mbox).data_v
                ∷ dev.mboxes.h2a.mbox
                ∷ (dev.rings dev.mboxes.a2h.mbox).data_v
                ∷ dev.mboxes.a2h.mbox
                ∷ (dev.rings dev.mboxes.rb.mbox).data_v
                ∷ dev.mboxes.rb.mbox
                ∷ [])),
        )
  unfolding hero_dev_free_mboxes
  free_mboxes_order dev i e n1 n2 n3 =
      let d1 =
        freed dev
          (free_all i ((dev.rings dev.mboxes.h2a.mbox).data_v ∷ dev.mboxes.h2a.mbox ∷ [])) in
      ground (
        arith,
        free_mbox-freed dev dev.mboxes.h2a i e n1,
        free_mbox-freed d1 dev.mboxes.a2h _ refl n2,
        free_mbox-freed
            (freed d1 (
              free_all i (
                (dev.rings dev.mboxes.h2a.mbox).data_v
                ∷ dev.mboxes.h2a.mbox
                ∷ (dev.rings dev.mboxes.a2h.mbox).data_v
                ∷ dev.mboxes.a2h.mbox
                ∷ [])))
            dev.mboxes.rb _ refl n3,
      )
