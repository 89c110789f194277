-- ===== src/Legalizer/Agree.antt =====
-- States that agree on the names of the original code, and on what the code can tell of the core.
use hero_tools.Prelude.{ℕ, ◌+◌, ◌/◌, ◌^◌, ◌≤◌, ◌<◌, ◌≡◌, refl, ◌∙◌, ap, some, List, [], ◌∷◌, arith}
use hero_tools.Hero64.{Core, load_bytes, store_bytes}
use hero_tools.Ir.{Types, Value, Inst, hero_load, hero_store, call}
use hero_tools.Ir.Meaning.{World, State, set, with_core, step, exec}
use hero_tools.Legalizer.Support.{IsProvided, IsSame, support_load-bytes, support_store-bytes}

-- The names below `n` are those of the original code.
pub record Agrees (n : ℕ) (s' s : State) : Type 0 where
  pub env : (k : ℕ) → k < n → s'.env k ≡ s.env k
  pub core : IsSame s'.core s.core

pub IsSame-trans : {c d e : Core} → IsSame e d → IsSame d c → IsSame e c
IsSame-trans a b = record { memory = a.memory ∙ b.memory; mstatus = a.mstatus ∙ b.mstatus }

pub with_core-Agrees :
    (n : ℕ) {s' s : State} {d : Core}
    → Agrees n s' s
    → IsSame d s.core
    → Agrees n (with_core d s') s
with_core-Agrees n a same = record { env = a.env; core = same }

module _ {T : Type 0} where
  -- The same result on both sides.
  pub set-Agrees :
      (n : ℕ) (r : Value T) {x y : ℕ} {s' s : State}
      → x ≡ y
      → Agrees n s' s
      → Agrees n (set r x s') (set r y s)
  set-Agrees n r e a = record { env = λ k lo. ground (arith, a.env k lo, e); core = a.core }

  -- A result under a new name.
  pub set_new-Agrees :
      (n : ℕ) (r : Value T) (x : ℕ) {s' s : State}
      → n ≤ r.name
      → Agrees n s' s
      → Agrees n (set r x s') s
  set_new-Agrees n r x new a = record { env = λ k lo. ground (arith, a.env k lo); core = a.core }

  pub set_self : (r : Value T) (x : ℕ) (s : State) → (set r x s).env r.name ≡ x
  set_self r x s = ground arith

module _ {T : Type 0} (t : Types T) (w : World) where
  pub exec-step :
      (i : Inst T) (is : List (Inst T)) (s u : State)
      → step t w i s ≡ some u
      → exec t w (i ∷ is) s ≡ exec t w is u
  unfolding exec
  exec-step i is s u e = rw e refl

  pub exec-last : (i : Inst T) (s u : State) → step t w i s ≡ some u → exec t w (i ∷ []) s ≡ some u
  unfolding exec
  exec-last i s u e = rw e refl

  -- The call of a load from an address below 2^32.
  pub load_call :
      (r v : Value T) (bits a : ℕ) (c : Core) (s : State)
      → s.env v.name ≡ a
      → IsSame s.core c
      → IsProvided bits
      → a + bits / 8 ≤ 2 ^ 32
      → (d : Core) × IsSame d c
        × (step t w (call r (hero_load bits) (v ∷ [])) s
            ≡ some (set r (load_bytes c.memory a (bits / 8)) (with_core d s)))
  unfolding step
  load_call r v bits a c s at same provided fits =
      let (d, runs, kept) = support_load-bytes bits a s.core provided fits in
      (d, IsSame-trans kept same, rw (at, runs, same.memory) refl)

  pub store_call :
      (r v x : Value T) (bits a val : ℕ) (c : Core) (s : State)
      → s.env v.name ≡ a
      → store_bytes c.memory a (s.env x.name) (bits / 8) ≡ store_bytes c.memory a val (bits / 8)
      → IsSame s.core c
      → IsProvided bits
      → a + bits / 8 ≤ 2 ^ 32
      → (d : Core) × IsSame d (record c { memory = store_bytes c.memory a val (bits / 8) })
        × (step t w (call r (hero_store bits) (v ∷ x ∷ [])) s ≡ some (with_core d s))
  unfolding step
  store_call r v x bits a val c s at stored same provided fits =
      let (d, runs, memory, mstatus) =
        support_store-bytes bits a (s.env x.name) s.core provided fits in
      (
        d,
        record {
          memory =
              memory ∙ ap (λ m. store_bytes m a (s.env x.name) (bits / 8)) same.memory ∙ stored;
          mstatus = mstatus ∙ same.mstatus;
        },
        rw (at, runs) refl,
      )
