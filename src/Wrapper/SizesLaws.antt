-- ===== src/Wrapper/SizesLaws.antt =====
-- The sizes are the same numbers, in elements of 64 bits.
use hero_tools.Prelude.{ℕ, zero, suc, ◌≡◌, List, [], ◌∷◌}
use hero_tools.Wrapper.Sizes.{
  Initializer, constant_data_array, constant_aggregate_zero, unexpected, Arg, value, null_sizes,
  sizes,
}

abbrev pub zeros : ℕ → List ℕ
zeros zero = []
zeros (suc n) = 0 ∷ zeros n

-- The sizes in an array; the initializer is one that the pass expects.
abbrev pub elements : Initializer → List ℕ
elements (constant_data_array content) = content
elements (constant_aggregate_zero n) = zeros n
elements unexpected = []

abbrev pub IsExpected : Initializer → Type 0
IsExpected unexpected = ⊥
IsExpected _ = Unit

module _ {T : Type 0} where
  -- An argument for sizes.
  abbrev pub IsSizes : Arg T → Type 0
  IsSizes (value v) = ⊥
  IsSizes (null_sizes bits) = Unit
  IsSizes (sizes g) = IsExpected g.initializer

  abbrev pub HasSizes : (index : ℕ) → List (Arg T) → Type 0
  HasSizes index [] = ⊥
  HasSizes zero (a ∷ as') = IsSizes a
  HasSizes (suc index) (a ∷ as') = HasSizes index as'

  -- The same sizes, of 64 bits; NULL stays NULL.
  abbrev pub SameSizes : (a b : Arg T) → Type 0
  SameSizes (null_sizes bits) (null_sizes bits') = bits' ≡ 64
  SameSizes (sizes g) (sizes h) = (h.bits ≡ 64) × (elements h.initializer ≡ elements g.initializer)
  SameSizes _ _ = ⊥

  -- The argument at the index has the same sizes, and the others are the same.
  abbrev pub AreSameArgs : (index : ℕ) → (as' bs : List (Arg T)) → Type 0
  AreSameArgs zero (a ∷ as') (b ∷ bs) = SameSizes a b × (bs ≡ as')
  AreSameArgs (suc index) (a ∷ as') (b ∷ bs) = (b ≡ a) × AreSameArgs index as' bs
  AreSameArgs index _ _ = ⊥
