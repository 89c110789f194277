-- ===== src/Ir/Meaning.antt =====
-- What the instructions do, by LLVM's language reference: values are bit patterns, the memory is that of the
-- device core of `Hero64`, whose functions the calls of "hero_load" and "hero_store" reach. A pointer of the
-- host's address space is used whole, as a 64-bit address. What other functions, the memory intrinsics and
-- all other instructions do is a parameter.
use hero_tools.Prelude.{
  ℕ, ◌+◌, ◌*◌, ◌/◌, ◌%◌, ◌^◌, Option, none, some, List, [], ◌∷◌, ◌==◌, if◌then◌else◌,
}
use hero_tools.Prelude.Memory.{Mem}
use hero_tools.Prelude.Partial.{◌>>=◌}
use hero_tools.Hero64.{Core, load_bytes, store_bytes, hero_load_uint64, hero_store_uint64}
use hero_tools.Hero64.{load as load_uint, store as store_uint}
use hero_tools.Ir.{
  Types, Value, hero_load, hero_store, function, MemKind, Inst, load, store, addr_space_cast,
  ptr_to_int, int_to_ptr, bit_cast, gep, call, mem_intrinsic, ret_void, other, data_bits,
}

-- What is not the passes' own: from the operands and the memory, the result and the memory.
pub record World : Type 0 where
  pub called : (place : ℕ) → List ℕ → Mem → ℕ × Mem
  pub intrinsic : MemKind → List ℕ → Mem → Mem
  pub effect : (opcode : ℕ) → List ℕ → Mem → ℕ × Mem

pub record State : Type 0 where
  pub env : ℕ → ℕ
  pub core : Core

-- The functions of hero_64.h.
abbrev pub support_load : (bits : ℕ) → (addr : ℕ) → Core → Option (ℕ × Core)
support_load bits addr c =
    if bits == 64
    then some (hero_load_uint64 addr c)
    else if bits == 32
    then some (load_uint 4 addr c)
    else if bits == 16
    then some (load_uint 2 addr c)
    else if bits == 8
    then some (load_uint 1 addr c)
    else none

abbrev pub support_store : (bits : ℕ) → (addr val : ℕ) → Core → Option Core
support_store bits addr val c =
    if bits == 64
    then some (hero_store_uint64 addr val c)
    else if bits == 32
    then some (store_uint 4 addr val c)
    else if bits == 16
    then some (store_uint 2 addr val c)
    else if bits == 8
    then some (store_uint 1 addr val c)
    else none

abbrev pub with_memory : Mem → State → State
with_memory m s = record s { core = record s.core { memory = m } }

abbrev pub with_core : Core → State → State
with_core c s = record s { core = c }

module _ {T : Type 0} where
  abbrev pub set : Value T → ℕ → State → State
  set r x s = record s { env = λ k. if k == r.name then x else s.env k }

  abbrev pub values : State → List (Value T) → List ℕ
  values s [] = []
  values s (v ∷ vs) = s.env v.name ∷ values s vs

  -- The effect of what has a result and may change the memory.
  abbrev pub apply : Value T → ℕ × Mem → State → State
  apply r (x, m) s = set r x (with_memory m s)

  abbrev pub call_load : Value T → (bits : ℕ) → List (Value T) → State → Option State
  call_load r bits (p ∷ []) s =
      support_load bits (s.env p.name) s.core >>= λ (x, c). some (set r x (with_core c s))
  call_load r bits _ s = none

  abbrev pub call_store : (bits : ℕ) → List (Value T) → State → Option State
  call_store bits (p ∷ v ∷ []) s =
      support_store bits (s.env p.name) (s.env v.name) s.core >>= λ c. some (with_core c s)
  call_store bits _ s = none

module _ {T : Type 0} (t : Types T) (w : World) where
  unfoldable pub step : Inst T → State → Option State
  step (load r p) s =
      some (set r (load_bytes s.core.memory (s.env p.name) (data_bits t r.ty / 8)) s)
  step (store p v) s = some (
      with_memory (store_bytes s.core.memory (s.env p.name) (s.env v.name) (data_bits t v.ty / 8))
        s)
  step (addr_space_cast r p) s = some (set r (s.env p.name % 2 ^ t.alloc_bits r.ty) s)
  step (ptr_to_int r p) s = some (set r (s.env p.name % 2 ^ t.primitive_bits r.ty) s)
  step (int_to_ptr r v) s = some (set r (s.env v.name % 2 ^ t.alloc_bits r.ty) s)
  step (bit_cast r v) s = some (set r (s.env v.name) s)
  step (gep element r p i) s =
      some (set r ((s.env p.name + i * (t.alloc_bits element / 8)) % 2 ^ t.alloc_bits r.ty) s)
  step (call r (hero_load bits) vs) s = call_load r bits vs s
  step (call r (hero_store bits) vs) s = call_store bits vs s
  step (call r (function f) vs) s = some (apply r (w.called f (values s vs) s.core.memory) s)
  step (mem_intrinsic k d v n) s =
      some (with_memory (w.intrinsic k (values s (d ∷ v ∷ n ∷ [])) s.core.memory) s)
  step ret_void s = some s
  step (other o r vs) s = some (apply r (w.effect o (values s vs) s.core.memory) s)

  -- A run stops where a function is called that there is not.
  unfoldable pub exec : List (Inst T) → State → Option State
  exec [] s = some s
  exec (i ∷ is) s = step i s >>= λ s1. exec is s1
