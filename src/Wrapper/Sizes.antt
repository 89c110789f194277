-- ===== src/Wrapper/Sizes.antt =====
-- The arrays of sizes that an ARM host passes to the offloading runtime: `changeTypeOfArgSizes` and
-- `rebuildArgSizesArgument`. A constant of a type that is not expected is `none`, the assertion, and so is
-- the walk over the uses of a function that goes on from a use which it has erased.
use Prim.Native.String.{String}
use text.Mathlib.Text.{◌==◌ as str_eq}
use mathlib.Core.List.{map}
use hero_tools.Prelude.{
  ℕ, zero, suc, Bool, true, false, Option, none, some, List, [], ◌∷◌, if◌then◌else◌,
}
use hero_tools.Prelude.Partial.{◌>>=◌}
use hero_tools.Ir.{Types, Value}
use hero_tools.Wrapper.{set_at}

-- The initializer of an array of sizes.
pub data Initializer : Type 0 where
  constant_data_array : List ℕ → Initializer
  constant_aggregate_zero : (elements : ℕ) → Initializer
  unexpected : Initializer

-- The global array, by the bits of an element.
pub record OffloadSizes : Type 0 where
  pub bits : ℕ
  pub initializer : Initializer

-- What stands as an argument of a call.
pub data Arg (T : Type 0) : Type 0 where
  value : Value T → Arg T
  null_sizes : (bits : ℕ) → Arg T
  sizes : OffloadSizes → Arg T

pub record Declaration (T : Type 0) : Type 0 where
  pub name : String
  pub params : List T

pub record Call (T : Type 0) : Type 0 where
  pub callee : String
  pub args : List (Arg T)

pub record HostModule (T : Type 0) : Type 0 where
  pub triple : String
  pub declarations : List (Declaration T)
  pub calls : List (Call T)

-- The constants are rebuilt with elements of 64 bits.
unfoldable pub rebuild_initializer : Initializer → Option Initializer
rebuild_initializer (constant_data_array content) = some (constant_data_array content)
rebuild_initializer (constant_aggregate_zero n) = some (constant_aggregate_zero n)
rebuild_initializer unexpected = none

module _ {T : Type 0} where
  unfoldable pub rebuild_arg_sizes : Arg T → Option (Arg T)
  rebuild_arg_sizes (null_sizes bits) = some (null_sizes 64)
  rebuild_arg_sizes (sizes g) = rebuild_initializer g.initializer >>= λ i.
      some (sizes (record { bits = 64; initializer = i }))
  rebuild_arg_sizes (value v) = none

  -- The arguments of the new call: a call with too few is not one of the function.
  unfoldable pub rebuild_args : (index : ℕ) → List (Arg T) → Option (List (Arg T))
  rebuild_args index [] = some []
  rebuild_args zero (a ∷ as') = rebuild_arg_sizes a >>= λ b. some (b ∷ as')
  rebuild_args (suc index) (a ∷ as') = rebuild_args index as' >>= λ bs. some (a ∷ bs)

  -- A round of the loop, on a call of the function: the new call stands in its place.
  unfoldable pub rebuild_call : (index : ℕ) → Call T → Option (Call T)
  rebuild_call index c = rebuild_args index c.args >>= λ args. some (record c { args = args })

  -- The loop over the uses: a call of the function is erased, and with it the use from which the loop
  -- would go on, so that what comes behind it is undefined.
  unfoldable pub rebuild_calls : String → (index : ℕ) → List (Call T) → Option (List (Call T))
  rebuild_calls name index [] = some []
  rebuild_calls name index (c ∷ cs) =
      let kept = rebuild_calls name index cs >>= λ cs'. some (c ∷ cs') in
      let erased : Option (List (Call T)) = rebuild_call index c >>= λ c'. none in
      if str_eq c.callee name then erased else kept

  abbrev pub is_declared : String → List (Declaration T) → Bool
  is_declared name [] = false
  is_declared name (d ∷ ds) = if str_eq d.name name then true else is_declared name ds

module _ {T : Type 0} (t : Types T) where
  unfoldable pub change_declaration : String → (index : ℕ) → Declaration T → Declaration T
  change_declaration name index d =
      if str_eq d.name name
      then record d { params = set_at index (t.pointer_to (t.int_n 64) 0) d.params }
      else d

  unfoldable pub change_type_of_arg_sizes :
      String → (index : ℕ) → HostModule T → Option (HostModule T)
  change_type_of_arg_sizes name index m =
      let changed = rebuild_calls name index m.calls >>= λ calls. some (record m {
        declarations = map (change_declaration name index) m.declarations;
        calls = calls;
      }) in
      if is_declared name m.declarations then changed else some m

  unfoldable pub change_types : (index : ℕ) → List String → HostModule T → Option (HostModule T)
  change_types index [] m = some m
  change_types index (name ∷ names) m =
      change_type_of_arg_sizes name index m >>= λ m'. change_types index names m'

  abbrev pub data_functions : List String
  data_functions =
      "__tgt_target_data_begin" ∷ "__tgt_target_data_begin_nowait"
      ∷ "__tgt_target_data_begin_depend" ∷ "__tgt_target_data_begin_nowait_depend"
      ∷ "__tgt_target_data_end" ∷ "__tgt_target_data_end_nowait" ∷ "__tgt_target_data_end_depend"
      ∷ "__tgt_target_data_end_nowait_depend" ∷ "__tgt_target_data_update"
      ∷ "__tgt_target_data_update_nowait" ∷ "__tgt_target_data_update_depend"
      ∷ "__tgt_target_data_update_nowait_depend" ∷ []

  abbrev pub target_functions : List String
  target_functions =
      "__tgt_target" ∷ "__tgt_target_nowait" ∷ "__tgt_target_teams" ∷ "__tgt_target_teams_nowait"
      ∷ []

  -- What runOnModule does for the host.
  unfoldable pub change_host_module : HostModule T → Option (HostModule T)
  change_host_module m =
      let changed = change_types 4 data_functions m >>= λ m1. change_types 5 target_functions m1 in
      if str_eq m.triple "armv6kz-unknown-linux-gnueabihf" then changed else some m
