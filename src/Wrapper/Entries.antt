-- ===== src/Wrapper/Entries.antt =====
-- The offload entries of a module when its kernels have been wrapped.
use Prim.Native.String.{◌++◌ as append}
use hero_tools.Prelude.{
  ℕ, ◌<◌, ◌≡◌, ◌≢◌, Option, some, none, List, [], ◌∷◌, ◌++◌, get_elem?, if◌then◌else◌,
}
use hero_tools.Ir.{Types}
use hero_tools.Wrapper.{Fn, Global, is_entry, kernel_wrapper_body, wrapped_prefix}

-- The kernel that a global offers, if it is an entry.
abbrev pub kernel_of : Global → Option ℕ
kernel_of g = if is_entry g then g.target else none

-- No other entry offers the kernel.
abbrev pub Avoids : (place : ℕ) → List Global → Type 0
Avoids place [] = Unit
Avoids place (g ∷ gs) = (kernel_of g ≢ some place) × Avoids place gs

-- The kernels are in the module, and each is offered once.
abbrev pub AreKernels : (functions : ℕ) → List Global → Type 0
AreKernels functions [] = Unit
AreKernels functions (g ∷ gs) =
    ((place : ℕ) → kernel_of g ≡ some place → (place < functions) × Avoids place gs)
    × AreKernels functions gs

module _ {T : Type 0} (t : Types T) where
  -- The function that the runtime calls for a kernel.
  abbrev pub wrapper_of : (place : ℕ) → Fn T → Fn T
  wrapper_of place kernel = record {
    name = kernel.name;
    params = t.int_n 64 ∷ [];
    body = kernel_wrapper_body t place kernel.params;
  }

  abbrev pub renamed : Fn T → Fn T
  renamed kernel = record kernel { name = append wrapped_prefix kernel.name }

  -- What becomes of a global, from the functions `fs` to `fs'`.
  abbrev pub IsWrapped : (fs fs' : List (Fn T)) → (g g' : Global) → Type 0
  IsWrapped fs fs' g g' =
      (g'.name ≡ g.name)
      × (kernel_of g ≡ none → g'.target ≡ g.target)
      × ((place : ℕ) (kernel : Fn T)
          → kernel_of g ≡ some place
          → get_elem? fs place ≡ some kernel
          → (wrapper : ℕ) × (g'.target ≡ some wrapper)
            × (get_elem? fs' wrapper ≡ some (wrapper_of place kernel))
            × (get_elem? fs' place ≡ some (renamed kernel)))

  abbrev pub AreWrapped : (fs fs' : List (Fn T)) → (gs gs' : List Global) → Type 0
  AreWrapped fs fs' [] [] = Unit
  AreWrapped fs fs' (g ∷ gs) (g' ∷ gs') = IsWrapped fs fs' g g' × AreWrapped fs fs' gs gs'
  AreWrapped fs fs' _ _ = ⊥

  -- The kernels of the later globals are as they were.
  AgreeOn : (fs fs1 : List (Fn T)) → List Global → Type 0
  AgreeOn fs fs1 [] = Unit
  AgreeOn fs fs1 (g ∷ gs) =
      ((place : ℕ) → kernel_of g ≡ some place → get_elem? fs1 place ≡ get_elem? fs place)
      × AgreeOn fs fs1 gs
