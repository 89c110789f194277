-- ===== src/Wrapper/Outlined.antt =====
-- The wrapper of an outlined function calls it with what the buffer of the fork holds.
use hero_tools.Prelude.{
  ℕ, ◌+◌, ◌*◌, ◌/◌, ◌^◌, ◌≤◌, ◌≡◌, ◌∙◌, ap, ap₂, some, List, ◌∷◌, arith, length,
}
use hero_tools.Hero64.{Core}
use hero_tools.Ir.{Types, Value}
use hero_tools.Ir.Meaning.{World, State, values, exec}
use hero_tools.Wrapper.{device_pointer, behind_threads, dereference, outlined_wrapper_body}
use hero_tools.Wrapper.Slots.{slots, dereferenced}
use hero_tools.Wrapper.Correct.{finish, finished}

module _ {T : Type 0} (t : Types T) (w : World) (place : ℕ) (params : List T) where
  abbrev thread : (name : ℕ) → Value T
  thread k = record { name = k; ty = t.pointer_to (t.int_n 32) t.program_space }

  abbrev buffer : Value T
  buffer = record { name = 2; ty = t.pointer_to (device_pointer t) t.program_space }

  -- The wrapper of an outlined function calls the function once, with the two numbers of threads
  -- that it was given, and then what the buffer holds in slots of 4 bytes, of the sizes of the
  -- other parameters; then it returns, and the memory is the one that the function leaves.
  -- Pointers of the program's address space have 32 bits, and the buffer does not wrap.
  pub outlined_wrapper-calls :
      (s : State)
      → ((ty : T) → t.alloc_bits (t.pointer_to ty t.program_space) ≡ 32)
      → s.env 2 + length (behind_threads t params) * 4 ≤ 2 ^ 32
      → let vs = slots t 4 s.core.memory (s.env 2) (behind_threads t params) in
        (u : State) × (exec t w (outlined_wrapper_body t place params) s ≡ some u)
        × (u.core
            ≡ record s.core { memory = (w.called place (s.env 0 ∷ s.env 1 ∷ vs) s.core.memory).1 })
  unfolding outlined_wrapper_body
  outlined_wrapper-calls s narrow fits =
      let arg_ty : T = t.pointer_to (device_pointer t) t.program_space in
      let others : List T = behind_threads t params in
      let d = dereference t arg_ty t.program_space buffer 0 3 others in
      let size : t.alloc_bits arg_ty / 8 ≡ 4 = ap (λ k. k / 8) (narrow (device_pointer t)) in
      let fits' : s.env 2 + length others * 4
          ≤ 2 ^ t.alloc_bits (t.pointer_to arg_ty t.program_space) =
        rw (narrow arg_ty) fits in
      let (u, runs, h) =
        dereferenced t w arg_ty t.program_space buffer 4 size (omega arith) others 0 3 (s.env 2) s
          (omega arith) (omega arith) fits' in
      let after : List ℕ → Core → Core =
        λ xs c. record c { memory = (w.called place xs c.memory).1 } in
      let called : values u (thread 0 ∷ thread 1 ∷ d.1)
          ≡ s.env 0 ∷ s.env 1 ∷ slots t 4 s.core.memory (s.env 2) others =
        ap₂ ◌∷◌ (h.env 0 (omega arith)) (ap₂ ◌∷◌ (h.env 1 (omega arith)) h.loads) in
      (
        _,
        runs (finish t w place d.2 (thread 0 ∷ thread 1 ∷ d.1))
            ∙ finished t w place d.2 (thread 0 ∷ thread 1 ∷ d.1) u,
        ap₂ after called h.core,
      )
