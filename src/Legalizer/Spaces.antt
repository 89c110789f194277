-- ===== src/Legalizer/Spaces.antt =====
-- The host's and the device's address spaces, and the tests that the pass makes of them.
use hero_tools.Prelude.{ℕ, ◌≡◌, ◌≢◌, Bool, true, false, ◌&&◌, ◌==◌, arith}
use hero_tools.Ir.{Types, Value, MemKind, memcpy, memmove, memset, host_space}
use hero_tools.Legalizer.{is_crossing}
use hero_tools.Legalizer.Module.{is_device_only}

module _ {T : Type 0} (t : Types T) where
  -- No cast from one of the two spaces to the other.
  abbrev pub IsWithin : (source dest : ℕ) → Type 0
  IsWithin source dest =
      (source ≡ host_space t → dest ≢ t.program_space)
      × (source ≡ t.program_space → dest ≢ host_space t)

  pub is_crossing-IsWithin :
      (source dest : ℕ) → is_crossing t source dest ≡ false → IsWithin source dest
  unfolding is_crossing
  is_crossing-IsWithin source dest e = (
    (λ host device. ground (arith, e, host, device)),
    (λ device host. ground (arith, e, host, device)),
  )

  -- Not a pointer of the host.
  abbrev pub IsOwn : Value T → Type 0
  IsOwn p = t.address_space p.ty ≢ host_space t

  -- The intrinsic does not touch the host's memory; the value of a memset is no pointer.
  abbrev pub IsOwnIntrinsic : MemKind → (dest source : Value T) → Type 0
  IsOwnIntrinsic memcpy d s = IsOwn d × IsOwn s
  IsOwnIntrinsic memmove d s = IsOwn d × IsOwn s
  IsOwnIntrinsic memset d s = IsOwn d

  program-ne-host : (space : ℕ) → (space == t.program_space) ≡ true → space ≢ host_space t
  program-ne-host space e same = ground (arith, e, same)

  both-true : (a b : Bool) → (a && b) ≡ true → (a ≡ true) × (b ≡ true)
  both-true a b e = (ground (arith, e), ground (arith, e))

  copy-AreOwn :
      (d s : Value T)
      → (t.address_space s.ty == t.program_space && t.address_space d.ty == t.program_space) ≡ true
      → IsOwn d × IsOwn s
  copy-AreOwn d s e =
      let (source, dest) = both-true _ _ e in
      (program-ne-host (t.address_space d.ty) dest, program-ne-host (t.address_space s.ty) source)

  pub is_device_only-IsOwnIntrinsic :
      (k : MemKind) (d s : Value T) → is_device_only t k d s ≡ true → IsOwnIntrinsic k d s
  unfolding is_device_only
  is_device_only-IsOwnIntrinsic memcpy d s e = copy-AreOwn d s e
  is_device_only-IsOwnIntrinsic memmove d s e = copy-AreOwn d s e
  is_device_only-IsOwnIntrinsic memset d s e = program-ne-host (t.address_space d.ty) e
