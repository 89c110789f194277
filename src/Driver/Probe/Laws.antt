-- ===== src/Driver/Probe/Laws.antt =====
-- What `probe_node` leaves in the fields that it fills, and in the information buffer.
use Prim.Native.String.{String}
use hero_tools.Prelude.{
  ◌≡◌, ◌≢◌, inl, inr, refl, ◌∙◌, ap, Bool, true, false, Option, none, some, List, [], ◌∷◌, arith,
  Bool-cases, Option-cases, ◌==◌,
}
use mathlib.Core.Path.{subst}
use hero_tools.Driver.{SharedMem}
use hero_tools.Driver.Probe.{
  Resource, Reserved, DtNode, Tree, Probing, is_err, print, claim_l3, reserve_l3, map_node,
  probe_node, probe_nodes,
}

-- A field tells nothing, or the memory of a node that is in the device tree, was mapped, and answers.
pub data IsBacked (t : Tree) (name : String) (m : SharedMem) : Type 0 where
  empty : m.pbase ≡ 0 → m.size ≡ 0 → IsBacked t name m
  backed :
      (n : DtNode)
      → t.child name ≡ some n
      → m.pbase ≡ n.resource.start
      → m.size ≡ n.resource.size
      → is_err m.vbase ≡ false
      → t.read32 m.vbase ≢ 0xbadcab1e
      → IsBacked t name m

module _ {F : Type 0} (same : F → F → Bool) where
  -- No field stands in the list twice.
  abbrev pub AllOther : F → List F → Type 0
  AllOther f [] = Unit
  AllOther f (g ∷ gs) = (same f g ≡ false) × AllOther f gs

  abbrev pub AreDistinct : List F → Type 0
  AreDistinct [] = Unit
  AreDistinct (f ∷ fs) = AllOther f fs × AreDistinct fs

  abbrev pub AreEmpty : List F → Probing F → Type 0
  AreEmpty [] p = Unit
  AreEmpty (f ∷ fs) p = ((p.region f).pbase ≡ 0) × ((p.region f).size ≡ 0) × AreEmpty fs p

module _ {F : Type 0} (same : F → F → Bool) (l3 : F) (t : Tree) where
  claim_l3-other :
      (name : String) (r : Resource) (p : Probing F) (g : F)
      → same l3 g ≡ false
      → (claim_l3 same l3 t name r p).1.region g ≡ p.region g
  unfolding claim_l3 print
  claim_l3-other name r p g other = ground arith

  reserve_l3-other :
      (m : Option Reserved) (p : Probing F) (g : F)
      → same l3 g ≡ false
      → (reserve_l3 same l3 t m p).1.region g ≡ p.region g
  unfolding reserve_l3
  reserve_l3-other none p g other = refl
  reserve_l3-other (some mem) p g other = elim (Option-cases mem.resource) [
    | inl failed ↦ ground arith
    | inr (r, there) ↦ ground (arith, claim_l3-other mem.name r p g other)
  ]

  map_node-other :
      (f : F) (name : String) (r : Resource) (p : Probing F) (g : F)
      → same f g ≡ false
      → (map_node same l3 t f name r p).region g ≡ p.region g
  unfolding map_node print
  map_node-other f name r p g other = ground arith

  map_node-IsBacked :
      (f : F) (name : String) (n : DtNode) (p : Probing F)
      → same f f ≡ true
      → t.child name ≡ some n
      → (p.region f).pbase ≡ 0
      → (p.region f).size ≡ 0
      → IsBacked t name ((map_node same l3 t f name n.resource p).region f)
  unfolding map_node print
  map_node-IsBacked f name n p self there z1 z2 =
      elim (Bool-cases (is_err (t.ioremap p.maps n.resource))) [
        | inl unmapped ↦ empty (ground arith) (ground arith)
        | inr mapped ↦ elim (Bool-cases (t.read32 (t.ioremap p.maps n.resource) == 0xbadcab1e)) [
          | inl absent ↦ empty (ground arith) (ground arith)
          | inr present ↦ backed n there (ground arith) (ground arith) (ground arith) (ground arith)
        ]
      ]

  probe_node-other :
      (f : F) (name : String) (p : Probing F) (g : F)
      → same l3 g ≡ false
      → same f g ≡ false
      → (probe_node same l3 t f name p).1.region g ≡ p.region g
  unfolding probe_node
  probe_node-other f name p g not_l3 other = elim (Option-cases (t.child name)) [
    | inl missing ↦ ground arith
    | inr (n, there) ↦
        let p1 : Probing F = (reserve_l3 same l3 t n.memory_region p).1 in
        ground (
          arith,
          reserve_l3-other n.memory_region p g not_l3,
          map_node-other f name n.resource p1 g other,
        )
  ]

  probe_node-IsBacked :
      (f : F) (name : String) (p : Probing F)
      → same f f ≡ true
      → same l3 f ≡ false
      → (p.region f).pbase ≡ 0
      → (p.region f).size ≡ 0
      → IsBacked t name ((probe_node same l3 t f name p).1.region f)
  unfolding probe_node
  probe_node-IsBacked f name p self not_l3 z1 z2 = elim (Option-cases (t.child name)) [
    | inl missing ↦ empty (ground arith) (ground arith)
    | inr (n, there) ↦
        let p1 : Probing F = (reserve_l3 same l3 t n.memory_region p).1 in
        let kept : p1.region f ≡ p.region f = reserve_l3-other n.memory_region p f not_l3 in
        elim (Bool-cases (reserve_l3 same l3 t n.memory_region p).0) [
          | inl reserved ↦
              rw (probe_node, there, reserved)
                (map_node-IsBacked f name n p1 self there (ground (arith, kept))
                  (ground (arith, kept)))
          | inr unreserved ↦ empty (ground arith) (ground arith)
        ]
  ]

  probe_node-AreEmpty :
      (f : F) (name : String) (p : Probing F) (gs : List F)
      → AllOther same f gs
      → AllOther same l3 gs
      → AreEmpty same gs p
      → AreEmpty same gs (probe_node same l3 t f name p).1
  probe_node-AreEmpty f name p [] others not_l3 empties = tt
  probe_node-AreEmpty f name p (g ∷ gs) (other, others) (not_l3, not_l3s) (z1, z2, zs) =
      let kept = probe_node-other f name p g not_l3 other in
      (
        ap (λ m. m.pbase) kept ∙ z1,
        ap (λ m. m.size) kept ∙ z2,
        probe_node-AreEmpty f name p gs others not_l3s zs,
      )

  module _ (name : F → String) (eq : (f g : F) → same f g ≡ true → f ≡ g)
      (self : (f : F) → same f f ≡ true) where
    -- Every field but the L3 region tells nothing, or the memory of its node.
    abbrev pub AreBacked : Probing F → Type 0
    AreBacked p = (g : F) → same l3 g ≡ false → IsBacked t (name g) (p.region g)

    probe_node-AreBacked :
        (f : F) (p : Probing F)
        → same l3 f ≡ false
        → (p.region f).pbase ≡ 0
        → (p.region f).size ≡ 0
        → AreBacked p
        → AreBacked (probe_node same l3 t f (name f) p).1
    probe_node-AreBacked f p not_l3 z1 z2 all g other = elim (Bool-cases (same f g)) [
      | inl here ↦
          subst (λ h. IsBacked t (name h) ((probe_node same l3 t f (name f) p).1.region h))
            (eq f g here) (probe_node-IsBacked f (name f) p (self f) not_l3 z1 z2)
      | inr elsewhere ↦ rw (probe_node-other f (name f) p g other elsewhere) (all g other)
    ]

    -- Probing the L3 region itself changes no other.
    pub probe_l3-AreBacked :
        (p : Probing F) → AreBacked p → AreBacked (probe_node same l3 t l3 (name l3) p).1
    probe_l3-AreBacked p all g other =
        rw (probe_node-other l3 (name l3) p g other other) (all g other)

    -- Probing some fields, each once, backs them.
    pub probe_nodes-AreBacked :
        (fs : List F) (p : Probing F)
        → AreDistinct same fs
        → AllOther same l3 fs
        → AreEmpty same fs p
        → AreBacked p
        → AreBacked (probe_nodes same l3 t name fs p)
    unfolding probe_nodes
    probe_nodes-AreBacked [] p distinct not_l3 empties all = all
    probe_nodes-AreBacked (f ∷ fs) p (others, distinct) (not_l3, not_l3s) (z1, z2, zs) all =
        probe_nodes-AreBacked fs (probe_node same l3 t f (name f) p).1 distinct not_l3s
          (probe_node-AreEmpty f (name f) p fs others not_l3s zs)
          (probe_node-AreBacked f p not_l3 z1 z2 all)
