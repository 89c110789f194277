-- ===== src/DevHeap.antt =====
-- sw/libhero/src/common/hero_api.c, memory management: the heaps of the device's L2 and L3 memories,
-- each an o1heap over a range that `hero_dev_mmap` has chosen. The host's heap code works on the
-- host's virtual addresses, and the device is given the physical ones.
-- o1heap is another project's code, so its calls are a parameter (`O1Heap`).
pub mod Address
pub mod Mboxes
mod Tests
use hero_tools.Prelude.{ℕ, ◌+◌, Bool, ◌||◌, Option, none, some, ◌==◌, if◌then◌else◌}
use hero_tools.Prelude.Int.{ℤ, pos, negsuc, neg, enomem}
use hero_tools.Prelude.Bits.{add64, sub64}

-- The calls of o1heap.h that the program makes. An instance is its whole state; `none` and the
-- pointer 0 are NULL.
pub record O1Heap : Type 1 where
  -- O1HEAP_ALIGNMENT, a power of two
  pub alignment : ℕ
  pub Instance : Type 0
  pub init : (base size : ℕ) → Option Instance
  pub allocate : Instance → ℕ → ℕ × Instance
  pub free : Instance → ℕ → Instance

module _ (o : O1Heap) where
  -- `l2_heap_manager`, `l2_heap_start_phy`, `l2_heap_start_virt`, `l2_heap_size`; so for L3.
  pub record HeapVars : Type 0 where
    pub heap_manager : Option o.Instance
    pub heap_start_phy : ℕ
    pub heap_start_virt : ℕ
    pub heap_size : ℕ

  -- The globals of the two heaps.
  pub record Heaps : Type 0 where
    pub l2 : HeapVars
    pub l3 : HeapVars

  -- The body that `hero_dev_l2_init` and `hero_dev_l3_init` share, on the variables of one heap.
  unfoldable pub heap_init : HeapVars → ℤ × HeapVars
  heap_init h = elim h.heap_manager [
    | some i ↦ (pos 0, h)
    | none ↦
        if h.heap_start_phy == 0 || h.heap_size == 0
        then (negsuc 0, h)
        else elim (o.init h.heap_start_virt h.heap_size) [
          | none ↦ (neg enomem, h)
          | some i ↦ (pos 0, record h { heap_manager = some i })
        ]
  ]

  -- The body of the two mallocs: the pointer, and what goes to `*p_addr`. `none` is the fault of a
  -- call on a heap that was never set up.
  unfoldable pub heap_malloc : HeapVars → ℕ → Option (ℕ × ℕ × HeapVars)
  heap_malloc h size_b = elim h.heap_manager [
    | none ↦ none
    | some i ↦
        let (result, i') = o.allocate i size_b in
        some (
          result,
          add64 (sub64 result h.heap_start_virt) h.heap_start_phy,
          record h { heap_manager = some i' },
        )
  ]

  unfoldable pub heap_free : HeapVars → ℕ → Option HeapVars
  heap_free h v_addr = elim h.heap_manager [
    | none ↦ none
    | some i ↦ some (record h { heap_manager = some (o.free i v_addr) })
  ]

  unfoldable pub hero_dev_l2_init : Heaps → ℤ × Heaps
  hero_dev_l2_init g = let (r, h) = heap_init g.l2 in (r, record g { l2 = h })

  unfoldable pub hero_dev_l3_init : Heaps → ℤ × Heaps
  hero_dev_l3_init g = let (r, h) = heap_init g.l3 in (r, record g { l3 = h })

  unfoldable pub hero_dev_l2_malloc : ℕ → Heaps → Option ((ℕ × ℕ) × Heaps)
  hero_dev_l2_malloc size_b g = elim (heap_malloc g.l2 size_b) [
    | none ↦ none
    | some (v, p, h) ↦ some ((v, p), record g { l2 = h })
  ]

  unfoldable pub hero_dev_l3_malloc : ℕ → Heaps → Option ((ℕ × ℕ) × Heaps)
  hero_dev_l3_malloc size_b g = elim (heap_malloc g.l3 size_b) [
    | none ↦ none
    | some (v, p, h) ↦ some ((v, p), record g { l3 = h })
  ]

  unfoldable pub hero_dev_l2_free : ℕ → Heaps → Option Heaps
  hero_dev_l2_free v_addr g = elim (heap_free g.l2 v_addr) [
    | none ↦ none
    | some h ↦ some (record g { l2 = h })
  ]

  unfoldable pub hero_dev_l3_free : ℕ → Heaps → Option Heaps
  hero_dev_l3_free v_addr g = elim (heap_free g.l3 v_addr) [
    | none ↦ none
    | some h ↦ some (record g { l3 = h })
  ]
