-- ===== src/Wrapper/Correct.antt =====
-- The wrapper calls its kernel with the arguments in the buffer, before and after the host's pointers are
-- legalized.
use native.Mathlib.Nat.{mod-eq_of_lt}
use hero_tools.Prelude.{
  ℕ, ◌+◌, ◌*◌, ◌/◌, ◌%◌, ◌^◌, ◌≤◌, ◌<◌, ◌≡◌, refl, ◌∙◌, ap, ap₂, inl, inr, Bool, some, List, [],
  ◌∷◌, ◌++◌, arith, length, ==_refl,
}
use hero_tools.Hero64.{Core}
use hero_tools.Ir.{
  Types, IsLlvm, Value, Inst, int_to_ptr, function, call, ret_void, data_bits, host_space,
}
use hero_tools.Ir.Meaning.{World, State, set, values, apply, step, exec}
use hero_tools.Legalizer.{visit_all}
use hero_tools.Legalizer.Agree.{exec-step}
use hero_tools.Legalizer.Runs.{AllBelow, AreBelow, IsScalar, AllReach}
use hero_tools.Legalizer.Correct.{visit_all-exec}
use hero_tools.Legalizer.Support.{IsProvided}
use hero_tools.Wrapper.{dereference, kernel_wrapper_body}
use hero_tools.Wrapper.Slots.{AreSlots, AreArguments, slots-arguments, dereferenced, fetched}

module _ {T : Type 0} (t : Types T) (w : World) where
  -- The end of a wrapper's body: the call of the kernel, and the return.
  abbrev pub finish : (place : ℕ) → (last : ℕ) → List (Value T) → List (Inst T)
  finish place last args =
      call (record { name = last; ty = t.int_n 0 }) (function place) args ∷ ret_void ∷ []

  pub finished :
      (place last : ℕ) (args : List (Value T)) (u : State)
      → exec t w (finish place last args) u
        ≡ some (
            apply
              (record { name = last; ty = t.int_n 0 })
              (w.called place (values u args) u.core.memory)
              u)
  unfolding exec step
  finished place last args u = refl

module _ {T : Type 0} (t : Types T) (l : IsLlvm t) (w : World) (place : ℕ) (params : List T) where
  abbrev host_arg : Value T
  host_arg = record { name = 1; ty = t.pointer_to (t.int_n 64) (host_space t) }

  host_pointer_bits : (ty : T) → t.alloc_bits (t.pointer_to ty (host_space t)) ≡ 64
  host_pointer_bits ty =
      l.host_pointer (t.pointer_to ty (host_space t)) (l.pointer_pointer ty (host_space t))
        (l.pointer_space ty (host_space t))

  -- The buffer's address as a pointer.
  receive :
      (s : State) (buf : ℕ)
      → s.env 0 ≡ buf
      → buf < 2 ^ 64
      → step t w (int_to_ptr host_arg (record { name = 0; ty = t.int_n 64 })) s
        ≡ some (set host_arg buf s)
  unfolding step
  receive s buf at fits =
      ap (λ x. some (set host_arg x s))
        (ap₂ (λ x k. x % 2 ^ k) at (host_pointer_bits (t.int_n 64)) ∙ mod-eq_of_lt fits)

  -- The wrapper, called with the address of a buffer that holds the kernel's arguments in slots of 8
  -- bytes, calls the kernel once, with these arguments, and returns. Every argument fits the type of
  -- its parameter, of 8, 16, 32 or 64 bits.
  pub kernel_wrapper-calls :
      (s : State) (buf : ℕ) (vs : List ℕ)
      → s.env 0 ≡ buf
      → ((x : ℕ) → s.core.memory x < 256)
      → AreSlots t s.core.memory buf vs
      → AreArguments t params vs
      → buf < 2 ^ 64
      → buf + length params * 8 ≤ 2 ^ 64
      → (u : State) × (exec t w (kernel_wrapper_body t place params) s ≡ some u)
        × (u.core ≡ record s.core { memory = (w.called place vs s.core.memory).1 })
  unfolding kernel_wrapper_body
  kernel_wrapper-calls s buf vs at small held args low fits =
      let s1 = set host_arg buf s in
      let size : t.alloc_bits (t.int_n 64) / 8 ≡ 8 = ap (λ k. k / 8) l.alloc_int in
      let d = dereference t (t.int_n 64) (host_space t) host_arg 0 2 params in
      let fits1 : buf + length params * 8
          ≤ 2 ^ t.alloc_bits (t.pointer_to (t.int_n 64) (host_space t)) =
        rw (host_pointer_bits (t.int_n 64)) fits in
      let at1 : s1.env 1 + 0 * 8 ≡ buf = ground arith in
      let (u, runs, h) =
        dereferenced t w (t.int_n 64) (host_space t) host_arg 8 size (omega arith) params 0 2 buf s1
          (omega arith) at1 fits1 in
      let after : List ℕ → Core → Core =
        λ xs c. record c { memory = (w.called place xs c.memory).1 } in
      let called : values u d.1 ≡ vs =
        h.loads ∙ slots-arguments t s.core.memory buf params vs small args held in
      (
        _,
        exec-step t w _ _ s s1 (receive s buf at low)
            ∙ runs (finish t w place d.2 d.1)
            ∙ finished t w place d.2 d.1 u,
        ap₂ after called h.core,
      )

module _ {T : Type 0} (t : Types T) where
  -- Parameters that the functions of hero_64.h can load.
  abbrev pub AreScalars : List T → Type 0
  AreScalars [] = Unit
  AreScalars (ty ∷ tys) = IsScalar t ty × IsProvided (data_bits t ty) × AreScalars tys

  last_name :
      (element : T) (space : ℕ) (arg : Value T) (index next : ℕ) (params : List T)
      → (dereference t element space arg index next params).2 ≡ next + 3 * length params
  unfolding dereference
  last_name element space arg index next [] = omega arith
  last_name element space arg index next (ty ∷ params) =
      last_name element space arg (index + 1) (next + 3) params ∙ omega arith

  args-AllBelow :
      (element : T) (space : ℕ) (arg : Value T) (index next n : ℕ) (params : List T)
      → next + 3 * length params ≤ n
      → AllBelow n (dereference t element space arg index next params).1
  unfolding dereference
  args-AllBelow element space arg index next n [] fits = tt
  args-AllBelow element space arg index next n (ty ∷ params) fits =
      (omega arith, args-AllBelow element space arg (index + 1) (next + 3) n params (omega arith))

  code-AreBelow :
      (element : T) (space : ℕ) (arg : Value T) (index next n : ℕ) (params : List T)
      (rest : List (Inst T))
      → arg.name < n
      → next + 3 * length params ≤ n
      → AreBelow n rest
      → AreBelow n ((dereference t element space arg index next params).0 ++ rest)
  unfolding dereference
  code-AreBelow element space arg index next n [] rest before fits h = h
  code-AreBelow element space arg index next n (ty ∷ params) rest before fits h = (
    (omega arith, omega arith),
    (
      (omega arith, omega arith),
      (
        (omega arith, omega arith),
        code-AreBelow element space arg (index + 1) (next + 3) n params rest before (omega arith) h,
      ),
    ),
  )

provided-le : (bits : ℕ) → IsProvided bits → bits / 8 ≤ 8
provided-le bits (inl e) = omega arith
provided-le bits (inr (inl e)) = omega arith
provided-le bits (inr (inr (inl e))) = omega arith
provided-le bits (inr (inr (inr e))) = omega arith

module _ {T : Type 0} (t : Types T) (l : IsLlvm t) (w : World) (arg : Value T) where
  code-AllReach :
      (params : List T) (index next b : ℕ) (rest : List (Inst T)) (s : State)
      → arg.name < next
      → s.env arg.name + index * 8 ≡ b
      → b + length params * 8 ≤ 2 ^ 32
      → ((x : ℕ) → s.core.memory x < 256)
      → AreScalars t params
      → ((u : State) → AllReach t w rest u)
      → AllReach t w ((dereference t (t.int_n 64) (host_space t) arg index next params).0 ++ rest) s
  unfolding dereference step
  code-AllReach [] index next b rest s before at fits small scalars then_rest = then_rest s
  code-AllReach (ty ∷ params) index next b rest s before at fits small (scalar, provided, scalars)
        then_rest =
      let wide : t.alloc_bits (t.pointer_to (t.int_n 64) (host_space t)) ≡ 64 =
        host_pointer_bits t l w 0 [] (t.int_n 64) in
      let reached : (s.env arg.name + index * (t.alloc_bits (t.int_n 64) / 8))
            % 2 ^ t.alloc_bits (t.pointer_to (t.int_n 64) (host_space t))
          ≡ b =
        ap₂ (λ k m. (s.env arg.name + index * (k / 8)) % 2 ^ m) l.alloc_int wide
        ∙ ap (λ x. x % 2 ^ 64) at
        ∙ omega arith in
      let s3 =
        fetched t w (t.int_n 64) (host_space t) arg 8 (ap (λ k. k / 8) l.alloc_int) (omega arith)
          next ty b s in
      let same : s3.env arg.name ≡ s.env arg.name = ground arith in
      let at3 : s3.env arg.name + (index + 1) * 8 ≡ b + 8 = omega (arith, same) in
      let inside : b + data_bits t ty / 8 ≤ 2 ^ 32 =
        omega (arith, provided-le (data_bits t ty) provided) in
      rw (reached, ==_refl next, ==_refl (next + 1))
        (
          tt,
          (
            tt,
            (
              (λ host. (l.pointer_pointer ty (host_space t), scalar, provided, inside, small)),
              code-AllReach params (index + 1) (next + 3) (b + 8) rest s3 (omega arith) at3
                  (omega arith) small scalars then_rest,
            ),
          ),
        )

module _ {T : Type 0} (t : Types T) (l : IsLlvm t) (w : World) (place : ℕ) (params : List T) where
  wrapper-AreBelow : AreBelow (3 + 3 * length params) (kernel_wrapper_body t place params)
  unfolding kernel_wrapper_body
  wrapper-AreBelow =
      let arg : Value T = host_arg t l w place params in
      let last = last_name t (t.int_n 64) (host_space t) arg 0 2 params in
      let n = 3 + 3 * length params in
      (
        (omega arith, omega arith),
        code-AreBelow t (t.int_n 64) (host_space t) arg 0 2 n params _ (omega arith) (omega arith) (
          (
            omega (arith, last),
            args-AllBelow t (t.int_n 64) (host_space t) arg 0 2 n params (omega arith),
          ),
          (tt, tt),
        ),
      )

  wrapper-AllReach :
      (s : State) (buf : ℕ)
      → s.env 0 ≡ buf
      → ((x : ℕ) → s.core.memory x < 256)
      → AreScalars t params
      → buf < 2 ^ 32
      → buf + length params * 8 ≤ 2 ^ 32
      → AllReach t w (kernel_wrapper_body t place params) s
  unfolding kernel_wrapper_body step
  wrapper-AllReach s buf at small scalars low fits =
      let arg : Value T = host_arg t l w place params in
      let received : s.env 0 % 2 ^ t.alloc_bits (t.pointer_to (t.int_n 64) (host_space t)) ≡ buf =
        ap₂ (λ x k. x % 2 ^ k) at (host_pointer_bits t l w place params (t.int_n 64))
        ∙ omega arith in
      let s1 = set arg buf s in
      let at1 : s1.env 1 + 0 * 8 ≡ buf = ground arith in
      (
        tt,
        rw received (
            code-AllReach t l w arg params 0 2 buf _ s1 (omega arith) at1 fits small scalars
              (λ u. (tt, (tt, tt)))),
      )

  -- The wrapper of a kernel, with its loads of the host's memory turned into calls of the
  -- functions of hero_64.h, calls the kernel with the arguments that the buffer holds in slots of
  -- 8 bytes, and returns: no assertion fails, the memory is the one that the kernel leaves, and
  -- `mstatus` is as before. The parameters are scalars of 8, 16, 32 or 64 bits, every argument
  -- fits its parameter, the buffer lies below 2^32, and the memory's cells are bytes.
  pub kernel_wrapper-legalized :
      (own : Bool) (s : State) (buf : ℕ) (vs : List ℕ)
      → s.env 0 ≡ buf
      → ((x : ℕ) → s.core.memory x < 256)
      → AreSlots t s.core.memory buf vs
      → AreArguments t params vs
      → AreScalars t params
      → buf < 2 ^ 32
      → buf + length params * 8 ≤ 2 ^ 32
      → (code : List (Inst T)) × (visit_all t own
            (3 + 3 * length params)
            (kernel_wrapper_body t place params)
          ≡ some code)
        × (u : State) × (exec t w code s ≡ some u)
        × (u.core.memory ≡ (w.called place vs s.core.memory).1)
        × (u.core.mstatus ≡ s.core.mstatus)
  kernel_wrapper-legalized own s buf vs at small held args scalars low fits =
      let (u, runs, same) =
        kernel_wrapper-calls t l w place params s buf vs at small held args (omega arith)
          (omega arith) in
      let (code, visited, u', ran, agrees) =
        visit_all-exec t l w (3 + 3 * length params) own (kernel_wrapper_body t place params) s u
          wrapper-AreBelow (wrapper-AllReach s buf at small scalars low fits) runs in
      (
        code,
        visited,
        u',
        ran,
        agrees.core.memory ∙ ap (λ c. c.memory) same,
        agrees.core.mstatus ∙ ap (λ c. c.mstatus) same,
      )
