-- ===== src/Legalizer/Module.antt =====
-- The pass on a module: `runOnModule`, in its order. LLVM's expansions of the memory intrinsics are a
-- parameter; a function is its instructions in order, and the operands of these that are constants.
use Prim.Native.String.{String}
use text.Mathlib.Text.{starts_with}
use mathlib.Core.List.{map}
use hero_tools.Prelude.{ℕ, Bool, ◌&&◌, ◌||◌, Option, some, List, [], ◌∷◌, ◌++◌, ◌==◌, if◌then◌else◌}
use hero_tools.Prelude.Partial.{◌>>=◌}
use hero_tools.Ir.{Types, Value, MemKind, memcpy, memmove, memset, Inst, mem_intrinsic}
use hero_tools.Legalizer.{visit_all}
use hero_tools.Legalizer.Constants.{Const, handle}

-- Names from `next` on are not used in the function.
pub record Function (T : Type 0) : Type 0 where
  pub name : String
  pub next : ℕ
  pub body : List (Inst T)
  pub constants : List (Const T)

-- `expandMemCpyAsLoop`, `expandMemMoveAsLoop` and `expandMemSetAsLoop`: the code, and the next name.
abbrev pub Expand : (T : Type 0) → Type 0
Expand T = MemKind → (dest source length : Value T) → (next : ℕ) → List (Inst T) × ℕ

-- Support functions keep their loads.
unfoldable pub is_support : String → Bool
is_support name = starts_with name "hero_load" || starts_with name "hero_store"

abbrev pub map_some {ℓ κ} : {A : Type ℓ} {B : Type κ} → (A → Option B) → List A → Option (List B)
map_some f [] = some []
map_some f (x ∷ xs) = f x >>= λ y. map_some f xs >>= λ ys. some (y ∷ ys)

module _ {T : Type 0} (t : Types T) where
  -- The use of an intrinsic that has nothing to do with the host's memory stays.
  unfoldable pub is_device_only : MemKind → (dest source : Value T) → Bool
  is_device_only memcpy d s =
      t.address_space s.ty == t.program_space && t.address_space d.ty == t.program_space
  is_device_only memmove d s =
      t.address_space s.ty == t.program_space && t.address_space d.ty == t.program_space
  is_device_only memset d s = t.address_space d.ty == t.program_space

  unfoldable pub visit_function : Function T → Option (Function T)
  visit_function f =
      visit_all t (is_support f.name) f.next f.body >>= λ body. some (record f { body = body })

  unfoldable pub handle_function : Function T → Function T
  handle_function f = record f { constants = map (handle t) f.constants }

module _ {T : Type 0} (t : Types T) (expand : Expand T) where
  unfoldable pub expand_mem_intrinsic_uses : (next : ℕ) → List (Inst T) → List (Inst T) × ℕ
  expand_mem_intrinsic_uses next [] = ([], next)
  expand_mem_intrinsic_uses next (mem_intrinsic k d s n ∷ is) =
      let (code, next') =
        if is_device_only t k d s
        then (mem_intrinsic k d s n ∷ [], next)
        else expand k d s n next in
      let (rest, last) = expand_mem_intrinsic_uses next' is in (code ++ rest, last)
  expand_mem_intrinsic_uses next (i ∷ is) =
      let (rest, last) = expand_mem_intrinsic_uses next is in (i ∷ rest, last)

  unfoldable pub expand_function : Function T → Function T
  expand_function f =
      let (body, next) = expand_mem_intrinsic_uses f.next f.body in
      record f { next = next; body = body }

  unfoldable pub run_on_module : List (Function T) → Option (List (Function T))
  run_on_module fs = map_some (visit_function t) (map expand_function fs) >>= λ visited.
      some (map (handle_function t) visited)
