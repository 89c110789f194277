-- ===== src/Wrapper/Slots.antt =====
-- What the wrapper's code loads: the slots of the buffer, which hold the arguments.
use native.Mathlib.Nat.{mod-eq_of_lt, suc-mul}
use hero_tools.Prelude.{
  ℕ, ◌+◌, ◌*◌, ◌/◌, ◌%◌, ◌^◌, ◌≤◌, ◌<◌, ◌≡◌, refl, ◌∙◌, ap, ap₂, inl, inr, List, [], ◌∷◌, ◌++◌,
  arith, length, ==_refl,
}
use hero_tools.Prelude.Memory.{Mem}
use hero_tools.Hero64.{load_bytes}
use hero_tools.Ir.{Types, Value, Inst, load, gep, bit_cast, data_bits}
use hero_tools.Ir.Meaning.{World, State, set, values, step, exec}
use hero_tools.Legalizer.Support.{IsProvided}
use hero_tools.Wrapper.{dereference}
use hero_tools.Legalizer.Agree.{set_self}

module _ {T : Type 0} (t : Types T) where
  -- The values in slots of `stride` bytes, of the parameters' sizes.
  abbrev pub slots : (stride : ℕ) → Mem → (address : ℕ) → List T → List ℕ
  slots stride m a [] = []
  slots stride m a (ty ∷ tys) =
      load_bytes m a (data_bits t ty / 8) ∷ slots stride m (a + stride) tys

  -- Slots of 8 bytes that hold the arguments.
  abbrev pub AreSlots : Mem → (address : ℕ) → List ℕ → Type 0
  AreSlots m a [] = Unit
  AreSlots m a (v ∷ vs) = (load_bytes m a 8 ≡ v) × AreSlots m (a + 8) vs

  -- Arguments of the parameters' types, of the sizes that hero_64.h has.
  abbrev pub AreArguments : List T → List ℕ → Type 0
  AreArguments [] [] = Unit
  AreArguments (ty ∷ tys) (v ∷ vs) =
      IsProvided (data_bits t ty) × (v < 2 ^ data_bits t ty) × AreArguments tys vs
  AreArguments _ _ = ⊥

  -- The lowest bytes of a slot are its value, if it is small.
  slot_value :
      (m : Mem) (a bits v : ℕ)
      → ((x : ℕ) → m x < 256)
      → IsProvided bits
      → v < 2 ^ bits
      → load_bytes m a 8 ≡ v
      → load_bytes m a (bits / 8) ≡ v
  slot_value m a bits v small (inl e) fits slot = rw e slot
  slot_value m a bits v small (inr (inl e)) fits slot =
      let fits' : v < 2 ^ 32 = rw e at fits in rw e (omega (arith, slot, fits'))
  slot_value m a bits v small (inr (inr (inl e))) fits slot =
      let fits' : v < 2 ^ 16 = rw e at fits in rw e (omega (arith, slot, fits'))
  slot_value m a bits v small (inr (inr (inr e))) fits slot =
      let fits' : v < 2 ^ 8 = rw e at fits in rw e (omega (arith, slot, fits'))

  -- With small values in slots of 8 bytes, the values loaded are the arguments.
  pub slots-arguments :
      (m : Mem) (a : ℕ) (tys : List T) (vs : List ℕ)
      → ((x : ℕ) → m x < 256)
      → AreArguments tys vs
      → AreSlots m a vs
      → slots 8 m a tys ≡ vs
  slots-arguments m a [] [] small h k = refl
  slots-arguments m a (ty ∷ tys) (v ∷ vs) small (provided, fits, h) (slot, k) =
      ap₂ ◌∷◌ (slot_value m a (data_bits t ty) v small provided fits slot)
        (slots-arguments m (a + 8) tys vs small h k)
  slots-arguments m a [] (v ∷ vs) small h k = absurd h
  slots-arguments m a (ty ∷ tys) [] small h k = absurd h

module _ {T : Type 0} (t : Types T) (w : World) (element : T) (space : ℕ) (arg : Value T)
    (stride : ℕ) (size : t.alloc_bits element / 8 ≡ stride) (pos : 0 < stride) where
  -- The first slot: the code and the state that it leads to.
  abbrev pub buf_ptr : (next : ℕ) → Value T
  buf_ptr next = record { name = next; ty = t.pointer_to element space }

  abbrev pub param_ptr : (next : ℕ) → T → Value T
  param_ptr next ty = record { name = next + 1; ty = t.pointer_to ty space }

  abbrev pub loaded : (next : ℕ) → T → Value T
  loaded next ty = record { name = next + 2; ty = ty }

  abbrev pub fetched : (next : ℕ) → T → (b : ℕ) → State → State
  fetched next ty b s =
      set (loaded next ty) (load_bytes s.core.memory b (data_bits t ty / 8))
        (set (param_ptr next ty) b (set (buf_ptr next) b s))

  pub fetch :
      (ty : T) (index next b : ℕ) (rest : List (Inst T)) (s : State)
      → s.env arg.name + index * stride ≡ b
      → b < 2 ^ t.alloc_bits (t.pointer_to element space)
      → exec t w
          (gep element (buf_ptr next) arg index
            ∷ bit_cast (param_ptr next ty) (buf_ptr next)
            ∷ load (loaded next ty) (param_ptr next ty)
            ∷ rest)
          s
        ≡ exec t w rest (fetched next ty b s)
  unfolding exec step
  fetch ty index next b rest s at fits =
      let reached : (s.env arg.name + index * (t.alloc_bits element / 8))
            % 2 ^ t.alloc_bits (t.pointer_to element space)
          ≡ b =
        ap (λ k. (s.env arg.name + index * k) % 2 ^ t.alloc_bits (t.pointer_to element space)) size
        ∙ ap (λ x. x % 2 ^ t.alloc_bits (t.pointer_to element space)) at
        ∙ mod-eq_of_lt fits in
      rw (reached, ==_refl next, ==_refl (next + 1)) refl

  -- Where the loop over the parameters leads.
  pub record IsLoaded (next b : ℕ) (params : List T) (args : List (Value T)) (s u : State)
      : Type 0 where
    pub core : u.core ≡ s.core
    pub env : (k : ℕ) → k < next → u.env k ≡ s.env k
    pub loads : values u args ≡ slots t stride s.core.memory b params

  pub dereferenced :
      (params : List T) (index next b : ℕ) (s : State)
      → arg.name < next
      → s.env arg.name + index * stride ≡ b
      → b + length params * stride ≤ 2 ^ t.alloc_bits (t.pointer_to element space)
      → let d = dereference t element space arg index next params in
        (u : State) × ((rest : List (Inst T)) → exec t w (d.0 ++ rest) s ≡ exec t w rest u)
        × IsLoaded next b params d.1 s u
  unfolding dereference
  dereferenced [] index next b s before at fits =
      (s, (λ rest. refl), record { core = refl; env = λ k lo. refl; loads = refl })
  dereferenced (ty ∷ params) index next b s before at fits =
      let s3 = fetched next ty b s in
      let same : (k : ℕ) → k < next → s3.env k ≡ s.env k = λ k lo. ground arith in
      let at3 : s3.env arg.name + (index + 1) * stride ≡ b + stride =
        ap (λ x. x + (index + 1) * stride) (same arg.name before)
        ∙ omega (arith, at, suc-mul index stride) in
      let fits3 : b + stride + length params * stride
          ≤ 2 ^ t.alloc_bits (t.pointer_to element space) =
        omega (arith, fits, suc-mul (length params) stride) in
      let below : b < 2 ^ t.alloc_bits (t.pointer_to element space) =
        omega (arith, fits, suc-mul (length params) stride) in
      let (u, runs, h) =
        dereferenced params (index + 1) (next + 3) (b + stride) s3 (omega arith) at3 fits3 in
      (
        u,
        (λ rest. fetch ty index next b _ s at below ∙ runs rest),
        record {
          core = h.core;
          env = λ k lo. h.env k (omega arith) ∙ same k lo;
          loads =
              ap₂ ◌∷◌
                (h.env (next + 2) (omega arith)
                  ∙ set_self (loaded next ty) (load_bytes s.core.memory b (data_bits t ty / 8))
                      (set (param_ptr next ty) b (set (buf_ptr next) b s)))
                h.loads;
        },
      )
