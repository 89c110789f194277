-- ===== src/Driver/Devices/Laws.antt =====
-- The table of character devices over any sequence of probes and removals.
use hero_tools.Prelude.{
  ℕ, ◌+◌, ◌%◌, ◌^◌, ◌<◌, ◌≡◌, ◌≢◌, refl, List, [], ◌∷◌, ◌++◌, arith, ◌==◌, if◌then◌else◌,
}
use hero_tools.Prelude.Int.{pos}
use hero_tools.Driver.Devices.{CharDev, Devices, remove_first, publish, unpublish}

-- How often a number stands in a list.
abbrev pub count : ℕ → List ℕ → ℕ
count x [] = 0
count x (y ∷ ys) = (if x == y then 1 else 0) + count x ys

count-append : (x : ℕ) (xs ys : List ℕ) → count x (xs ++ ys) ≡ count x xs + count x ys
count-append x [] ys = omega arith
count-append x (y ∷ xs) ys = omega (arith, count-append x xs ys)

pub count-remove_first :
    (x y : ℕ) (xs : List ℕ)
    → 0 < count y xs
    → count x (remove_first y xs) + (if x == y then 1 else 0) ≡ count x xs
count-remove_first x y [] there = absurd (omega arith)
count-remove_first x y (z ∷ xs) there = ground (arith, count-remove_first x y xs)

-- A refused device leaves the table as it was, but for the pointer of the failed file.
pub publish-refused :
    (c : CharDev) (num : ℕ) (d : Devices)
    → (publish c num d).0 ≢ pos 0
    → ((publish c num d).1.cdevs ≡ d.cdevs)
      × ((publish c num d).1.files ≡ d.files)
      × ((publish c num d).1.total_devices ≡ d.total_devices)
      × ((publish c num d).1.device_num_base ≡ d.device_num_base)
unfolding publish
publish-refused c num d failed = ground arith

-- An accepted one is in the table.
pub publish-accepted :
    (c : CharDev) (num : ℕ) (d : Devices)
    → c.device_create < 2 ^ 64
    → (publish c num d).0 ≡ pos 0
    → ((publish c num d).1.cdevs ≡ num ∷ d.cdevs)
      × ((publish c num d).1.files ≡ num ∷ d.files)
      × ((publish c num d).1.total_devices ≡ (d.total_devices + 1) % 2 ^ 32)
      × ((publish c num d).1.device_num_base ≡ d.device_num_base)
unfolding publish
publish-accepted c num d is64 accepted = ground arith

-- Taking back the device added last leaves the table before it.
pub unpublish-restores :
    (num : ℕ) (d : Devices) (cdevs files : List ℕ) (n : ℕ)
    → n < 2 ^ 32
    → d.cdevs ≡ num ∷ cdevs
    → d.files ≡ num ∷ files
    → d.total_devices ≡ (n + 1) % 2 ^ 32
    → unpublish num d ≡ record d { cdevs = cdevs; files = files; total_devices = n }
unfolding unpublish
unpublish-restores num d cdevs files n small e1 e2 e3 = ground arith

pub remove_first-absent : (x : ℕ) (xs : List ℕ) → count x xs ≡ 0 → remove_first x xs ≡ xs
remove_first-absent x [] absent = refl
remove_first-absent x (y ∷ xs) absent = ground (arith, remove_first-absent x xs)

pub count-remove_first_other :
    (x y : ℕ) (xs : List ℕ) → x ≢ y → count x (remove_first y xs) ≡ count x xs
count-remove_first_other x y [] other = refl
count-remove_first_other x y (z ∷ xs) other = ground (arith, count-remove_first_other x y xs other)
