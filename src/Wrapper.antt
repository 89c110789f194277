-- ===== src/Wrapper.antt =====
-- toolchain/llvm-support/OmpKernelWrapper/OmpKernelWrapper.cpp: the pass that gives an OpenMP kernel the one
-- argument with which the runtime calls it. A function stands for itself by its place in the module; the
-- suffix that LLVM gives to a name that is taken is left out.
pub mod Slots
pub mod Sizes
pub mod SizesLaws
pub mod Correct
pub mod Outlined
pub mod Named
pub mod Forks
pub mod Places
pub mod Entries
mod Tests
use Prim.Native.String.{String, ◌++◌ as append}
use text.Mathlib.Text.{starts_with, ◌==◌ as str_eq}
use hero_tools.Prelude.{
  ℕ, zero, suc, ◌+◌, Bool, ◌||◌, Option, none, some, List, [], ◌∷◌, ◌++◌, length, get_elem?,
  if◌then◌else◌,
}
use hero_tools.Ir.{
  Types, Value, function, Inst, load, int_to_ptr, bit_cast, gep, call, ret_void, host_space,
}

abbrev pub wrapper_prefix : String
wrapper_prefix = "__wrapper_omp"

abbrev pub wrapped_prefix : String
wrapped_prefix = "__wrapped_omp"

-- The parameters are the first names of the body.
pub record Fn (T : Type 0) : Type 0 where
  pub name : String
  pub params : List T
  pub body : List (Inst T)

-- A global variable with the function of its initializer, if it has one.
pub record Global : Type 0 where
  pub name : String
  pub target : Option ℕ

-- The functions, the globals, and the third arguments of the calls of `__kmpc_fork_call`.
pub record Module (T : Type 0) : Type 0 where
  pub triple : String
  pub functions : List (Fn T)
  pub globals : List Global
  pub forks : List (Option ℕ)

abbrev pub set_at {ℓ} : {A : Type ℓ} → ℕ → A → List A → List A
set_at k y [] = []
set_at zero y (x ∷ xs) = y ∷ xs
set_at (suc k) y (x ∷ xs) = x ∷ set_at k y xs

-- getOmpOffloadEntries, for one global.
unfoldable pub is_entry : Global → Bool
is_entry g = starts_with g.name ".omp_offloading.entry."

module _ {T : Type 0} (t : Types T) where
  -- The loop over a kernel's parameters: what is loaded from the buffer's elements from `index` on, in
  -- order, by the instructions, and the next name.
  unfoldable pub dereference :
      (element : T)
      → (space : ℕ) → (arg : Value T) → (index next : ℕ) → List T
      → List (Inst T) × List (Value T) × ℕ
  dereference element space arg index next [] = ([], [], next)
  dereference element space arg index next (param ∷ params) =
      let arg_buf_ptr : Value T = record { name = next; ty = t.pointer_to element space } in
      let param_ptr : Value T = record { name = next + 1; ty = t.pointer_to param space } in
      let value : Value T = record { name = next + 2; ty = param } in
      let (code, args, last) = dereference element space arg (index + 1) (next + 3) params in
      (
        gep element arg_buf_ptr arg index
            ∷ bit_cast param_ptr arg_buf_ptr
            ∷ load value param_ptr
            ∷ code,
        value ∷ args,
        last,
      )

  -- The body of the wrapper of the kernel at `place`.
  unfoldable pub kernel_wrapper_body : (place : ℕ) → List T → List (Inst T)
  kernel_wrapper_body place params =
      let host = host_space t in
      let raw_arg : Value T = record { name = 0; ty = t.int_n 64 } in
      let arg : Value T = record { name = 1; ty = t.pointer_to (t.int_n 64) host } in
      let (code, args, last) = dereference (t.int_n 64) host arg 0 2 params in
      let result : Value T = record { name = last; ty = t.int_n 0 } in
      int_to_ptr arg raw_arg ∷ (code ++ (call result (function place) args ∷ ret_void ∷ []))

  -- wrapOmpKernels, for one global: the wrapper takes the place and the name of the kernel.
  unfoldable pub wrap_kernel :
      Global → (place : ℕ) → Option (Fn T) → List (Fn T) → Global × List (Fn T)
  wrap_kernel g place none fs = (g, fs)
  wrap_kernel g place (some kernel) fs =
      let wrapper : Fn T = record {
        name = kernel.name;
        params = t.int_n 64 ∷ [];
        body = kernel_wrapper_body place kernel.params;
      } in
      let wrapped : Fn T = record kernel { name = append wrapped_prefix kernel.name } in
      (record g { target = some (length fs) }, set_at place wrapped fs ++ (wrapper ∷ []))

  -- Other global variables of a target section have no function.
  unfoldable pub wrap_entry : Global → Option ℕ → List (Fn T) → Global × List (Fn T)
  wrap_entry g none fs = (g, fs)
  wrap_entry g (some place) fs = wrap_kernel g place (get_elem? fs place) fs

  unfoldable pub wrap_global : Global → List (Fn T) → Global × List (Fn T)
  wrap_global g fs = if is_entry g then wrap_entry g g.target fs else (g, fs)

  unfoldable pub wrap_entries : List Global → List (Fn T) → List Global × List (Fn T)
  wrap_entries [] fs = ([], fs)
  wrap_entries (g ∷ gs) fs =
      let (g', fs') = wrap_global g fs in let (gs', last) = wrap_entries gs fs' in (g' ∷ gs', last)

  unfoldable pub wrap_omp_kernels : Module T → Module T
  wrap_omp_kernels m =
      let (globals, functions) = wrap_entries m.globals m.functions in
      record m { globals = globals; functions = functions }

  -- M.getFunction
  abbrev pub get_function : String → List (Fn T) → Option ℕ
  get_function name [] = none
  get_function name (f ∷ fs) =
      if str_eq f.name name
      then some 0
      else elim (get_function name fs) [ none ↦ none | some k ↦ some (k + 1) ]

  -- The type of `void *` on the device.
  abbrev pub device_pointer : T
  device_pointer = t.pointer_to (t.int_n 8) t.program_space

  abbrev pub behind_threads : List T → List T
  behind_threads (a ∷ b ∷ params) = params
  behind_threads _ = []

  -- The body of the wrapper of an outlined function: two numbers of threads, and the buffer. The first
  -- two parameters of the kernel are the wrapper's.
  unfoldable pub outlined_wrapper_body : (place : ℕ) → List T → List (Inst T)
  outlined_wrapper_body place params =
      let device = t.program_space in
      let thd_ty = t.pointer_to (t.int_n 32) device in
      let arg_ty = t.pointer_to device_pointer device in
      let gtid : Value T = record { name = 0; ty = thd_ty } in
      let btid : Value T = record { name = 1; ty = thd_ty } in
      let arg : Value T = record { name = 2; ty = arg_ty } in
      let (code, args, last) = dereference arg_ty device arg 0 3 (behind_threads params) in
      let result : Value T = record { name = last; ty = t.int_n 0 } in
      code ++ (call result (function place) (gtid ∷ btid ∷ args) ∷ ret_void ∷ [])

  unfoldable pub build_outlined : (place : ℕ) → Fn T → Fn T
  build_outlined place kernel =
      let device = t.program_space in
      let thd_ty = t.pointer_to (t.int_n 32) device in
      record {
        name = append wrapper_prefix kernel.name;
        params = thd_ty ∷ thd_ty ∷ t.pointer_to device_pointer device ∷ [];
        body = outlined_wrapper_body place kernel.params;
      }

  -- wrapOmpOutlinedFuncs, for one call: a wrapper is built once.
  unfoldable pub wrap_fork : Option ℕ → List (Fn T) → Option ℕ × List (Fn T)
  wrap_fork none fs = (none, fs)
  wrap_fork (some place) fs = elim (get_elem? fs place) [
    | none ↦ (some place, fs)
    | some kernel ↦ elim (get_function (append wrapper_prefix kernel.name) fs) [
      | some wrapper ↦ (some wrapper, fs)
      | none ↦ (some (length fs), fs ++ (build_outlined place kernel ∷ []))
    ]
  ]

  unfoldable pub wrap_forks : List (Option ℕ) → List (Fn T) → List (Option ℕ) × List (Fn T)
  wrap_forks [] fs = ([], fs)
  wrap_forks (c ∷ cs) fs =
      let (c', fs') = wrap_fork c fs in let (cs', last) = wrap_forks cs fs' in (c' ∷ cs', last)

  unfoldable pub wrap_omp_outlined_funcs : Module T → Module T
  wrap_omp_outlined_funcs m =
      let (forks, functions) = wrap_forks m.forks m.functions in
      record m { forks = forks; functions = functions }

  -- What runOnModule does for the devices.
  unfoldable pub wrap_module : Module T → Module T
  wrap_module m =
      let hero = str_eq m.triple "riscv32-hero-unknown-elf" in
      let snitch = str_eq m.triple "riscv32-snitch-unknown-elf" in
      let cluster = starts_with m.triple "riscv32-hero-hero" in
      let m1 = if hero || (snitch || cluster) then wrap_omp_kernels m else m in
      if hero then wrap_omp_outlined_funcs m1 else m1
