-- ===== src/DevHeap/Mboxes.antt =====
-- sw/libhero/src/common/hero_api.c, `hero_dev_alloc_mboxes` and `hero_dev_free_mboxes`: the three ring
-- buffers of a device, their structs and data arrays taken from the L2 heap.
pub mod Alloc
use hero_tools.Prelude.{ℕ, ◌+◌, Bool, ◌||◌, Option, none, some, ◌==◌, ltb, if◌then◌else◌}
use hero_tools.Prelude.Int.{ℤ, pos, enomem}
use hero_tools.Prelude.Partial.{◌>>=◌, ◌>>◌}
use hero_tools.Ring.{RingBuf, rb_init}
use hero_tools.DevHeap.{O1Heap, Heaps, hero_dev_l2_malloc, hero_dev_l2_free}

-- `h2a_mbox` and `h2a_mbox_mem.p_addr`; so for the other two.
pub record Mbox : Type 0 where
  pub mbox : ℕ
  pub p_addr : ℕ

-- `HeroMboxes_t`
pub record HeroMboxes : Type 0 where
  pub a2h : Mbox
  pub h2a : Mbox
  pub rb : Mbox

-- `sizeof(struct ring_buf)` and `sizeof(uint32_t) * 16`
abbrev pub ring_buf_bytes : ℕ
ring_buf_bytes = 32

abbrev pub array_bytes : ℕ
array_bytes = 64

abbrev pub set_ring : (ℕ → RingBuf) → ℕ → RingBuf → ℕ → RingBuf
set_ring rings p rb q = if q == p then rb else rings q

-- A pointer is compared with 0 by `<`, as an unsigned number.
unfoldable pub below_null : ℕ → Bool
below_null p = ltb p 0

module _ (o : O1Heap) where
  -- The heaps, the structs in the L2 memory by the host's address, and `dev->mboxes`.
  pub record Device : Type 0 where
    pub heaps : Heaps o
    pub rings : ℕ → RingBuf
    pub mboxes : HeroMboxes

  -- `mbox = hero_dev_l2_malloc(dev, sizeof(struct ring_buf), &mem.p_addr);`
  -- `mbox->data_v = hero_dev_l2_malloc(dev, sizeof(uint32_t)*16, &mbox->data_p);`
  -- The second call stores through `mbox`: a fault at NULL.
  unfoldable pub alloc_mbox : Device → Option (Mbox × Device)
  alloc_mbox dev = do
    ((v, p), g) ← hero_dev_l2_malloc o ring_buf_bytes dev.heaps
    ((dv, dp), g') ← hero_dev_l2_malloc o array_bytes g
    if v == 0
        then none
        else some (
          record { mbox = v; p_addr = p },
          record dev {
            heaps = g';
            rings = set_ring dev.rings v (record (dev.rings v) { data_v = dv; data_p = dp });
          },
        )

  -- `rb_init(mbox, 16, sizeof(uint32_t))`
  abbrev pub init_mbox : ℕ → Device → Device
  init_mbox p dev = record dev { rings = set_ring dev.rings p (rb_init (dev.rings p) 16 4) }

  unfoldable pub hero_dev_alloc_mboxes : Device → Option (ℤ × Device)
  hero_dev_alloc_mboxes dev = do
    (h2a, d1) ← alloc_mbox dev
    (a2h, d2) ← alloc_mbox d1
    (rb, d3) ← alloc_mbox d2
    let d4 = record d3 { mboxes = record { a2h = a2h; h2a = h2a; rb = rb } }
    some (
        if below_null a2h.mbox || below_null h2a.mbox || below_null rb.mbox
        then (pos enomem, d4)
        else (pos 0, init_mbox rb.mbox (init_mbox h2a.mbox (init_mbox a2h.mbox d4))))

  -- `hero_dev_l2_free(dev, mbox->data_v, NULL); hero_dev_l2_free(dev, mbox, NULL);`
  unfoldable pub free_mbox : Mbox → Device → Option Device
  free_mbox m dev = if m.mbox == 0 then none else do
    g ← hero_dev_l2_free o (dev.rings m.mbox).data_v dev.heaps
    g' ← hero_dev_l2_free o m.mbox g
    some (record dev { heaps = g' })

  unfoldable pub hero_dev_free_mboxes : Device → Option (ℤ × Device)
  hero_dev_free_mboxes dev = do
    d1 ← free_mbox dev.mboxes.h2a dev
    d2 ← free_mbox dev.mboxes.a2h d1
    d3 ← free_mbox dev.mboxes.rb d2
    some (pos 0, d3)
