-- ===== src/Legalizer/Kept.antt =====
-- An instruction that is kept does the same on states that agree.
use hero_tools.Prelude.{
  ℕ, ◌+◌, ◌*◌, ◌/◌, ◌%◌, ◌^◌, ◌≡◌, inl, inr, refl, ◌∙◌, ap, ap₂, Option, some, none, List, [], ◌∷◌,
  ◌==◌, Bool-cases,
}
use mathlib.Core.Path.{subst}
use mathlib.Core.Option.{some-injective}
use hero_tools.Prelude.Bits.{add64}
use hero_tools.Prelude.Memory.{Mem}
use hero_tools.Prelude.Partial.{◌>>=◌}
use hero_tools.Hero64.{
  Core, lower32, upper32, load_bytes, store_bytes, hero_load_uint64, hero_store_uint64,
  load_noblock, store_noblock,
}
use hero_tools.Hero64.{load as load_uint, store as store_uint}
use hero_tools.Hero64.Laws.{load-words, store-words}
use hero_tools.Ir.{
  Types, Value, hero_load, hero_store, function, Inst, load, store, addr_space_cast, ptr_to_int,
  int_to_ptr, bit_cast, gep, call, mem_intrinsic, ret_void, other, data_bits,
}
use hero_tools.Ir.Meaning.{
  World, State, support_load, support_store, set, apply, with_core, values, step,
}
use hero_tools.Legalizer.Support.{IsSame}
use hero_tools.Legalizer.Agree.{Agrees, set-Agrees}
use hero_tools.Legalizer.Runs.{AllBelow, IsBelow}

-- The same outcome of a load.
abbrev AreLoaded : Option (ℕ × Core) → Option (ℕ × Core) → Type 0
AreLoaded none none = Unit
AreLoaded (some (x, d)) (some (y, c)) = (x ≡ y) × IsSame d c
AreLoaded _ _ = ⊥

abbrev AreStored : Option Core → Option Core → Type 0
AreStored none none = Unit
AreStored (some d) (some c) = IsSame d c
AreStored _ _ = ⊥

load_uint-same :
    (n addr : ℕ) {d c : Core}
    → IsSame d c
    → AreLoaded (some (load_uint n addr d)) (some (load_uint n addr c))
unfolding load_uint load_noblock
load_uint-same n addr same = (
  ap (λ m. load_bytes m (0 * 2 ^ 32 + lower32 addr) n) same.memory,
  record { memory = same.memory; mstatus = same.mstatus },
)

load_uint64-same :
    (addr : ℕ) {d c : Core}
    → IsSame d c
    → AreLoaded (some (hero_load_uint64 addr d)) (some (hero_load_uint64 addr c))
load_uint64-same addr {d} {c} same =
    rw (load-words addr d, load-words addr c)
      (
        ap (λ m. load_bytes m (lower32 (add64 addr 4)) 4 * 2 ^ 32 + load_bytes m (lower32 addr) 4)
            same.memory,
        record { memory = same.memory; mstatus = same.mstatus },
      )

support_load-same :
    (bits addr : ℕ) {d c : Core}
    → IsSame d c
    → AreLoaded (support_load bits addr d) (support_load bits addr c)
support_load-same bits addr same = elim (Bool-cases (bits == 64)) [
  | inl e ↦ rw e (load_uint64-same addr same)
  | inr e64 ↦ elim (Bool-cases (bits == 32)) [
    | inl e ↦ rw (e64, e) (load_uint-same 4 addr same)
    | inr e32 ↦ elim (Bool-cases (bits == 16)) [
      | inl e ↦ rw (e64, e32, e) (load_uint-same 2 addr same)
      | inr e16 ↦ elim (Bool-cases (bits == 8)) [
        | inl e ↦ rw (e64, e32, e16, e) (load_uint-same 1 addr same)
        | inr e ↦ rw (e64, e32, e16, e) tt
      ]
    ]
  ]
]

store_uint-same :
    (n addr val : ℕ) {d c : Core}
    → IsSame d c
    → IsSame (store_uint n addr val d) (store_uint n addr val c)
unfolding store_uint store_noblock
store_uint-same n addr val same = record {
  memory = ap (λ m. store_bytes m (0 * 2 ^ 32 + lower32 addr) val n) same.memory;
  mstatus = same.mstatus;
}

store_uint64-same :
    (addr val : ℕ) {d c : Core}
    → IsSame d c
    → IsSame (hero_store_uint64 addr val d) (hero_store_uint64 addr val c)
store_uint64-same addr val {d} {c} same =
    rw (store-words addr val d, store-words addr val c)
      (record {
        memory =
            ap
              (λ m.
                store_bytes (store_bytes m (lower32 addr) (lower32 val) 4) (lower32 (add64 addr 4))
                  (upper32 val) 4)
              same.memory;
        mstatus = same.mstatus;
      })

support_store-same :
    (bits addr val : ℕ) {d c : Core}
    → IsSame d c
    → AreStored (support_store bits addr val d) (support_store bits addr val c)
support_store-same bits addr val same = elim (Bool-cases (bits == 64)) [
  | inl e ↦ rw e (store_uint64-same addr val same)
  | inr e64 ↦ elim (Bool-cases (bits == 32)) [
    | inl e ↦ rw (e64, e) (store_uint-same 4 addr val same)
    | inr e32 ↦ elim (Bool-cases (bits == 16)) [
      | inl e ↦ rw (e64, e32, e) (store_uint-same 2 addr val same)
      | inr e16 ↦ elim (Bool-cases (bits == 8)) [
        | inl e ↦ rw (e64, e32, e16, e) (store_uint-same 1 addr val same)
        | inr e ↦ rw (e64, e32, e16, e) tt
      ]
    ]
  ]
]

-- The same outcome of a step.
abbrev AreStepped : (n : ℕ) → Option State → Option State → Type 0
AreStepped n none none = Unit
AreStepped n (some s') (some s) = Agrees n s' s
AreStepped n _ _ = ⊥

stored-AreStepped :
    (n : ℕ) {s' s : State} (o' o : Option Core)
    → Agrees n s' s
    → AreStored o' o
    → AreStepped n (o' >>= λ c. some (with_core c s')) (o >>= λ c. some (with_core c s))
stored-AreStepped n none none a h = tt
stored-AreStepped n (some d) (some c) a same = record { env = a.env; core = same }
stored-AreStepped n none (some _) a h = absurd h
stored-AreStepped n (some _) none a h = absurd h

module _ {T : Type 0} where
  values-same :
      (n : ℕ) {s' s : State} (vs : List (Value T))
      → Agrees n s' s
      → AllBelow n vs
      → values s' vs ≡ values s vs
  values-same n [] a below = refl
  values-same n (v ∷ vs) a (lo, below) = ap₂ ◌∷◌ (a.env v.name lo) (values-same n vs a below)

  loaded-AreStepped :
      (n : ℕ) (r : Value T) {s' s : State} (o' o : Option (ℕ × Core))
      → Agrees n s' s
      → AreLoaded o' o
      → AreStepped n
          (o' >>= λ (x, c). some (set r x (with_core c s')))
          (o >>= λ (x, c). some (set r x (with_core c s)))
  loaded-AreStepped n r none none a h = tt
  loaded-AreStepped n r (some (x, d)) (some (y, c)) a (e, same) =
      set-Agrees n r e (record { env = a.env; core = same })
  loaded-AreStepped n r none (some _) a h = absurd h
  loaded-AreStepped n r (some _) none a h = absurd h

  applied-AreStepped :
      (n : ℕ) (r : Value T) {s' s : State} (x' x : ℕ × Mem)
      → x' ≡ x
      → Agrees n s' s
      → Agrees n (apply r x' s') (apply r x s)
  applied-AreStepped n r x' x e a =
      set-Agrees n r (ap (λ p. p.0) e) (record {
        env = a.env;
        core = record { memory = ap (λ p. p.1) e; mstatus = a.core.mstatus };
      })

pub stepped-some :
    (n : ℕ) (o' o : Option State)
    → AreStepped n o' o
    → (u : State) → o ≡ some u
    → (u' : State) × (o' ≡ some u') × Agrees n u' u
stepped-some n (some u') (some v) h u e = (u', refl, subst (Agrees n u') (some-injective v u e) h)
stepped-some n none none h u e = absurd (cc)
stepped-some n none (some _) h u e = absurd h
stepped-some n (some _) none h u e = absurd h

module _ {T : Type 0} (t : Types T) (w : World) where
  pub step-AreStepped :
      (n : ℕ) (i : Inst T) {s' s : State}
      → IsBelow n i
      → Agrees n s' s
      → AreStepped n (step t w i s') (step t w i s)
  unfolding step
  step-AreStepped n (load r p) (lo, below) a =
      set-Agrees n r
        (ap₂ (λ m x. load_bytes m x (data_bits t r.ty / 8)) a.core.memory (a.env p.name below)) a
  step-AreStepped n (store p v) {s'} {s} (lo, below) a = record {
    env = a.env;
    core = record {
      memory =
          ap (λ m. store_bytes m (s'.env p.name) (s'.env v.name) (data_bits t v.ty / 8))
            a.core.memory
          ∙ ap₂ (λ x y. store_bytes s.core.memory x y (data_bits t v.ty / 8)) (a.env p.name lo)
              (a.env v.name below);
      mstatus = a.core.mstatus;
    };
  }
  step-AreStepped n (addr_space_cast r p) (lo, below) a =
      set-Agrees n r (ap (λ x. x % 2 ^ t.alloc_bits r.ty) (a.env p.name below)) a
  step-AreStepped n (ptr_to_int r p) (lo, below) a =
      set-Agrees n r (ap (λ x. x % 2 ^ t.primitive_bits r.ty) (a.env p.name below)) a
  step-AreStepped n (int_to_ptr r p) (lo, below) a =
      set-Agrees n r (ap (λ x. x % 2 ^ t.alloc_bits r.ty) (a.env p.name below)) a
  step-AreStepped n (bit_cast r v) (lo, below) a = set-Agrees n r (a.env v.name below) a
  step-AreStepped n (gep element r p i) (lo, below) a =
      set-Agrees n r
        (ap (λ x. (x + i * (t.alloc_bits element / 8)) % 2 ^ t.alloc_bits r.ty)
          (a.env p.name below))
        a
  step-AreStepped n (call r (hero_load bits) []) below a = tt
  step-AreStepped n (call r (hero_load bits) (p ∷ [])) (lo, below) a =
      rw (a.env p.name below.0) (loaded-AreStepped n r _ _ a (support_load-same bits _ a.core))
  step-AreStepped n (call r (hero_load bits) (p ∷ q ∷ vs)) below a = tt
  step-AreStepped n (call r (hero_store bits) []) below a = tt
  step-AreStepped n (call r (hero_store bits) (p ∷ [])) below a = tt
  step-AreStepped n (call r (hero_store bits) (p ∷ v ∷ [])) (lo, below) a =
      rw (a.env p.name below.0, a.env v.name below.1.0)
        (stored-AreStepped n _ _ a (support_store-same bits _ _ a.core))
  step-AreStepped n (call r (hero_store bits) (p ∷ v ∷ q ∷ vs)) below a = tt
  step-AreStepped n (call r (function f) vs) (lo, below) a =
      applied-AreStepped n r _ _
        (ap₂ (λ xs m. w.called f xs m) (values-same n vs a below) a.core.memory) a
  step-AreStepped n (mem_intrinsic k d v l) below a = record {
    env = a.env;
    core = record {
      memory =
          ap₂ (λ xs m. w.intrinsic k xs m)
            (values-same n (d ∷ v ∷ l ∷ []) a (below.0, (below.1, (below.2, tt)))) a.core.memory;
      mstatus = a.core.mstatus;
    };
  }
  step-AreStepped n ret_void below a = a
  step-AreStepped n (other o r vs) (lo, below) a =
      applied-AreStepped n r _ _
        (ap₂ (λ xs m. w.effect o xs m) (values-same n vs a below) a.core.memory) a
