-- ===== src/Driver/Probe/Buffer.antt =====
-- How much `probe_node` writes to the information buffer.
use Prim.Native.String.{String, len}
use hero_tools.Prelude.{
  ℕ, ◌+◌, ◌*◌, ◌^◌, ◌≤◌, ◌<◌, ◌≡◌, inl, inr, refl, Bool, Option, none, some, List, [], ◌∷◌, ◌++◌,
  arith, length, Bool-cases, Option-cases, ◌==◌, if◌then◌else◌,
}
use hero_tools.Driver.{SharedMem}
use hero_tools.Driver.Probe.{
  Resource, Reserved, DtNode, Tree, Line, Probing, null_mem, is_err, set, mapping, print, claim_l3,
  reserve_l3, map_node, probe_node, probe_nodes,
}

-- "%s: %px size = %x\n" is the name, and at most 35 characters.
abbrev pub FormatsLine : Tree → Type 0
FormatsLine t = (name : String) (pbase size : ℕ) → t.sprintf name pbase size ≤ len name + 35

-- A node's name in a device tree has at most 31 characters.
abbrev pub IsShort : Reserved → Type 0
IsShort m = len m.name ≤ 31

abbrev pub AreShort : Tree → Type 0
AreShort t =
    (name : String) (n : DtNode) (m : Reserved)
    → t.child name ≡ some n
    → n.memory_region ≡ some m
    → IsShort m

-- The lengths of the lines together.
abbrev pub total : Tree → List Line → ℕ
total t [] = 0
total t (l ∷ ls) = t.sprintf l.name l.pbase l.size + total t ls

total-append :
    (t : Tree) (ls : List Line) (l : Line)
    → total t (ls ++ (l ∷ [])) ≡ total t ls + t.sprintf l.name l.pbase l.size
total-append t [] l = omega arith
total-append t (k ∷ ls) l = omega (arith, total-append t ls l)

-- The buffer's size is the length of its lines, which is at most `n`.
abbrev pub Holds : {F : Type 0} → Tree → Probing F → ℕ → Type 0
Holds t p n = (p.buffer_size ≡ total t p.buffer) × (p.buffer_size ≤ n)

module _ {F : Type 0} (same : F → F → Bool) (l3 : F) (t : Tree) (formats : FormatsLine t) where
  print-Holds :
      (name : String) (m : SharedMem) (p : Probing F) (n : ℕ)
      → len name ≤ 31
      → n < 2 ^ 31
      → Holds t p n
      → Holds t (print same l3 t name m p) (n + 66)
  unfolding print
  print-Holds name m p n short small (e, b) = ground (
    arith,
    formats name m.pbase m.size,
    total-append t p.buffer (record { name = name; pbase = m.pbase; size = m.size }),
  )

  claim_l3-Holds :
      (name : String) (r : Resource) (p : Probing F) (n : ℕ)
      → len name ≤ 31
      → n < 2 ^ 31
      → Holds t p n
      → Holds t (claim_l3 same l3 t name r p).1 (n + 66)
  unfolding claim_l3
  claim_l3-Holds name r p n short small h =
      let v = t.ioremap p.maps r in
      let m : SharedMem = record { pbase = r.start; vbase = v; size = r.size } in
      elim (Bool-cases (v == 0)) [
        | inl unmapped ↦ ground (arith, h)
        | inr mapped ↦
            rw (claim_l3, mapped) (print-Holds name m (set same l3 m (mapping r p)) n short small h)
      ]

  reserve_l3-Holds :
      (mem : Option Reserved) (p : Probing F) (n : ℕ)
      → ((m : Reserved) → mem ≡ some m → IsShort m)
      → n < 2 ^ 31
      → Holds t p n
      → Holds t (reserve_l3 same l3 t mem p).1 (n + 66)
  unfolding reserve_l3
  reserve_l3-Holds none p n short small h = ground arith
  reserve_l3-Holds (some m) p n short small h = elim (Option-cases m.resource) [
    | inl failed ↦ ground arith
    | inr (r, there) ↦ ground (arith, claim_l3-Holds m.name r p n (short m refl) small h)
  ]

  map_node-Holds :
      (f : F) (name : String) (r : Resource) (p : Probing F) (n : ℕ)
      → len name ≤ 31
      → n < 2 ^ 31
      → Holds t p n
      → Holds t (map_node same l3 t f name r p) (n + 66)
  unfolding map_node
  map_node-Holds f name r p n short small h =
      let v = t.ioremap p.maps r in
      let m : SharedMem =
        if t.read32 v == 0xbadcab1e
        then null_mem
        else record { pbase = r.start; vbase = v; size = r.size } in
      elim (Bool-cases (is_err v)) [
        | inl unmapped ↦ rw (map_node, unmapped) (h.0, omega (arith, h.1))
        | inr mapped ↦
            rw (map_node, mapped) (print-Holds name m (set same f m (mapping r p)) n short small h)
      ]

  -- A call of `probe_node` writes two lines at most.
  probe_node-Holds :
      AreShort t
      → (f : F) (name : String) (p : Probing F) (n : ℕ) → len name ≤ 31
      → n + 66 < 2 ^ 31
      → Holds t p n
      → Holds t (probe_node same l3 t f name p).1 (n + 132)
  unfolding probe_node
  probe_node-Holds shorts f name p n short small h = elim (Option-cases (t.child name)) [
    | inl missing ↦ ground arith
    | inr (node, there) ↦
        let p1 : Probing F = (reserve_l3 same l3 t node.memory_region p).1 in
        let h1 =
          reserve_l3-Holds node.memory_region p n (λ m e. shorts name node m there e) (omega arith)
            h in
        ground (arith, h1, map_node-Holds f name node.resource p1 (n + 66) short small h1)
  ]

  pub probe_nodes-Holds :
      (name : F → String)
      → ((f : F) → len (name f) ≤ 31)
      → AreShort t
      → (fs : List F) (p : Probing F) (n : ℕ) → n + 132 * length fs < 2 ^ 31
      → Holds t p n
      → Holds t (probe_nodes same l3 t name fs p) (n + 132 * length fs)
  unfolding probe_nodes
  probe_nodes-Holds name short shorts [] p n small h = ground arith
  probe_nodes-Holds name short shorts (f ∷ fs) p n small h =
      let p1 : Probing F = (probe_node same l3 t f (name f) p).1 in
      ground (
        arith,
        probe_nodes-Holds name short shorts fs p1 (n + 132) (omega arith)
            (probe_node-Holds shorts f (name f) p n (short f) (omega arith) h),
      )
