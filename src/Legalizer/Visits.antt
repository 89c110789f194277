-- ===== src/Legalizer/Visits.antt =====
-- A visit gives code that does what the instruction did.
use mathlib.Core.Path.{subst}
use mathlib.Core.Option.{some-injective}
use native.Mathlib.Nat.{mod-eq_of_lt, mod-mod, pow-suc}
use hero_tools.Prelude.{
  ℕ, zero, suc, ◌+◌, ◌/◌, ◌%◌, ◌^◌, ◌≤◌, ◌<◌, ◌≡◌, inl, inr, refl, sym, ◌∙◌, ap, Bool, true, false,
  ◌&&◌, not, Option, some, List, [], ◌∷◌, arith, ◌==◌, Bool-cases,
}
use hero_tools.Prelude.Memory.{Mem}
use hero_tools.Hero64.{load_bytes, store_bytes}
use hero_tools.Ir.{
  Types, IsLlvm, Value, hero_load, hero_store, Inst, load, store, addr_space_cast, ptr_to_int,
  int_to_ptr, bit_cast, call, data_bits, host_space,
}
use hero_tools.Ir.Meaning.{World, State, set, with_core, with_memory, step, exec}
use hero_tools.Legalizer.{
  is_crossing, convert_loaded, convert_stored, visit_load, visit_store, visit_addr_space_cast,
}
use hero_tools.Legalizer.Support.{IsProvided, store_bytes-mod}
use hero_tools.Legalizer.Agree.{
  Agrees, set_self, set-Agrees, set_new-Agrees, with_core-Agrees, exec-step, exec-last, load_call,
  store_call,
}
use hero_tools.Legalizer.Runs.{IsBelow, IsScalar, IsAccess, Follows, IsVisited}
use hero_tools.Legalizer.Kept.{step-AreStepped, stepped-some}

load_bytes-lt : (m : Mem) (a n : ℕ) → ((x : ℕ) → m x < 256) → load_bytes m a n < 256 ^ n
load_bytes-lt m a zero small = omega arith
load_bytes-lt m a (suc n) small =
    omega (arith, pow-suc 256 n, small a, load_bytes-lt m (a + 1) n small)

loaded-fits :
    (m : Mem) (a bits : ℕ)
    → IsProvided bits
    → ((x : ℕ) → m x < 256)
    → load_bytes m a (bits / 8) < 2 ^ bits
loaded-fits m a bits (inl e) small = rw e (load_bytes-lt m a 8 small)
loaded-fits m a bits (inr (inl e)) small = rw e (load_bytes-lt m a 4 small)
loaded-fits m a bits (inr (inr (inl e))) small = rw e (load_bytes-lt m a 2 small)
loaded-fits m a bits (inr (inr (inr e))) small = rw e (load_bytes-lt m a 1 small)

-- An address below 2^32 passes through an integer of 64 bits.
address-mod : (a n bits : ℕ) → bits ≡ 64 → a + n ≤ 2 ^ 32 → a % 2 ^ bits ≡ a
address-mod a n bits e fits = rw e (omega arith)

module _ {T : Type 0} (t : Types T) (l : IsLlvm t) (w : World) (n : ℕ) where
  exec-nil : (s : State) → exec t w [] s ≡ some s
  unfolding exec
  exec-nil s = refl

  -- An instruction that stays.
  pub kept-IsVisited :
      (next : ℕ) (i : Inst T) {s' s : State}
      → IsBelow n i
      → Agrees n s' s
      → IsVisited t w n next (some (i ∷ [], next)) s' (step t w i s)
  unfolding exec
  kept-IsVisited next i {s'} {s} below a = (
    i ∷ [],
    next,
    refl,
    omega arith,
    λ u e.
        let (u', runs, agrees) =
          stepped-some n (step t w i s') (step t w i s) (step-AreStepped t w n i below a) u e in
        (u', rw (exec-step t w i [] s' u' runs) refl, agrees),
  )

  -- The host's pointer as an integer.
  host_address :
      (p : Value T) (next bits : ℕ) (s' s : State)
      → p.name < n
      → n ≤ next
      → Agrees n s' s
      → t.is_pointer p.ty ≡ true
      → t.address_space p.ty ≡ host_space t
      → s.env p.name + bits ≤ 2 ^ 32
      → let pii : Value T = record { name = next; ty = t.int_n (t.alloc_bits p.ty) } in
        (s1 : State) × (step t w (ptr_to_int pii p) s' ≡ some s1)
        × (s1.env next ≡ s.env p.name)
        × Agrees n s1 s
  unfolding step
  host_address p next bits s' s below new a pointer host fits =
      let pii : Value T = record { name = next; ty = t.int_n (t.alloc_bits p.ty) } in
      let wide : t.primitive_bits (t.int_n (t.alloc_bits p.ty)) ≡ 64 =
        l.primitive_int (t.alloc_bits p.ty) ∙ l.host_pointer p.ty pointer host in
      let same : s'.env p.name % 2 ^ t.primitive_bits (t.int_n (t.alloc_bits p.ty)) ≡ s.env p.name =
        ap (λ x. x % 2 ^ t.primitive_bits (t.int_n (t.alloc_bits p.ty))) (a.env p.name below)
        ∙ address-mod (s.env p.name) bits _ wide fits in
      (_, refl, ground (arith, same), set_new-Agrees n pii _ new a)

  Follows-some :
      (code : List (Inst T)) (s' : State) (o : Option State) (u u' : State)
      → o ≡ some u
      → exec t w code s' ≡ some u'
      → Agrees n u' u
      → Follows t w n code s' o
  Follows-some code s' o u u' leads runs agrees v e =
      (u', runs, subst (Agrees n u') (some-injective u v (sym leads ∙ e)) agrees)

  step-load :
      (r p : Value T) (s : State)
      → step t w (load r p) s
        ≡ some (set r (load_bytes s.core.memory (s.env p.name) (data_bits t r.ty / 8)) s)
  unfolding step
  step-load r p s = refl

  step-store :
      (p v : Value T) (s : State)
      → step t w (store p v) s
        ≡ some (
            with_memory
              (store_bytes s.core.memory (s.env p.name) (s.env v.name) (data_bits t v.ty / 8))
              s)
  unfolding step
  step-store p v s = refl

  step-cast :
      (r p : Value T) (s : State)
      → (step t w (addr_space_cast r p) s ≡ some (set r (s.env p.name % 2 ^ t.alloc_bits r.ty) s))
        × (step t w (int_to_ptr r p) s ≡ some (set r (s.env p.name % 2 ^ t.alloc_bits r.ty) s))
        × (step t w (ptr_to_int r p) s ≡ some (set r (s.env p.name % 2 ^ t.primitive_bits r.ty) s))
  unfolding step
  step-cast r p s = (refl, refl, refl)

  -- The value that the memory has for a host's pointer.
  abbrev loaded : (p : Value T) → (bits : ℕ) → State → ℕ
  loaded p bits s = load_bytes s.core.memory (s.env p.name) (bits / 8)

  -- The conversion of the pointer and the call that loads, before further code.
  host_load :
      (v p : Value T) (next bits : ℕ) (s' s : State)
      → p.name < n
      → n ≤ next
      → Agrees n s' s
      → t.is_pointer p.ty ≡ true
      → t.address_space p.ty ≡ host_space t
      → IsProvided bits
      → s.env p.name + bits / 8 ≤ 2 ^ 32
      → let pii : Value T = record { name = next; ty = t.int_n (t.alloc_bits p.ty) } in
        (s1 : State) × Agrees n s1 s
        × ((rest : List (Inst T))
            → exec t w (ptr_to_int pii p ∷ call v (hero_load bits) (pii ∷ []) ∷ rest) s'
              ≡ exec t w rest (set v (loaded p bits s) s1))
  host_load v p next bits s' s below new a pointer host provided fits =
      let pii : Value T = record { name = next; ty = t.int_n (t.alloc_bits p.ty) } in
      let (s1, first, at, agrees) =
        host_address p next (bits / 8) s' s below new a pointer host fits in
      let (d, same, second) =
        load_call t w v pii bits (s.env p.name) s.core s1 at agrees.core provided fits in
      (
        with_core d s1,
        with_core-Agrees n agrees same,
        λ rest. exec-step t w _ _ s' s1 first ∙ exec-step t w _ _ s1 _ second,
      )

  -- A cast back to the type loaded keeps the bits.
  convert_loaded-pointer :
      (r v : Value T) (x : ℕ) (s : State)
      → t.is_pointer r.ty ≡ true
      → x < 2 ^ data_bits t r.ty
      → (cti : Inst T) × (convert_loaded t r v ≡ some cti)
        × (step t w cti (set v x s) ≡ some (set r x (set v x s)))
  unfolding convert_loaded step
  convert_loaded-pointer r v x s pointer fits =
      let e : t.primitive_bits r.ty ≡ 0 = l.primitive_pointer r.ty pointer in
      let fits' : x < 2 ^ t.alloc_bits r.ty = rw e at fits in
      (
        int_to_ptr r v,
        rw pointer refl,
        ap (λ y. some (set r y (set v x s)))
            (ap (λ y. y % 2 ^ t.alloc_bits r.ty) (set_self v x s) ∙ mod-eq_of_lt fits'),
      )

  convert_loaded-same :
      (r v : Value T) (x : ℕ) (s : State)
      → IsScalar t r.ty
      → x < 2 ^ data_bits t r.ty
      → (cti : Inst T) × (convert_loaded t r v ≡ some cti)
        × (step t w cti (set v x s) ≡ some (set r x (set v x s)))
  unfolding convert_loaded step
  convert_loaded-same r v x s (inl pointer) fits = convert_loaded-pointer r v x s pointer fits
  convert_loaded-same r v x s (inr (first, plain)) fits = elim (Bool-cases (t.is_pointer r.ty)) [
    | inl pointer ↦ convert_loaded-pointer r v x s pointer fits
    | inr no_pointer ↦ (
      bit_cast r v,
      rw (no_pointer, first, plain) refl,
      ap (λ y. some (set r y (set v x s))) (set_self v x s),
    )
  ]

  -- The code for a load from the host's memory.
  host_load-IsVisited :
      (next : ℕ) (r p : Value T) {s' s : State}
      → n ≤ next
      → (r.name < n) × (p.name < n)
      → Agrees n s' s
      → t.address_space p.ty ≡ host_space t
      → IsAccess t w p r.ty s
      → IsVisited t w n next (visit_load t false next r p) s' (step t w (load r p) s)
  unfolding visit_load
  host_load-IsVisited next r p {s'} {s} new (lo, below) a host reaches =
      let (pointer, scalar, provided, fits, bytes) = reaches host in
      let ds = data_bits t r.ty in
      let x = loaded p ds s in
      let here : (t.address_space p.ty == host_space t) ≡ true = ground arith in
      let pii : Value T = record { name = next; ty = t.int_n (t.alloc_bits p.ty) } in
      elim (Bool-cases (t.same r.ty (t.int_n ds))) [
        | inl same ↦
            let code : List (Inst T) = ptr_to_int pii p ∷ call r (hero_load ds) (pii ∷ []) ∷ [] in
            let (s1, agrees, runs) =
              host_load r p next ds s' s below new a pointer host provided fits in
            (
              code,
              next + 1,
              rw (here, same) refl,
              omega arith,
              Follows-some code s' _ (set r x s) (set r x s1) (step-load r p s)
                  (runs [] ∙ exec-nil (set r x s1)) (set-Agrees n r refl agrees),
            )
        | inr differs ↦
            let ci : Value T = record { name = next + 1; ty = t.int_n ds } in
            let (s1, agrees, runs) =
              host_load ci p next ds s' s below new a pointer host provided fits in
            let (cti, converted, casts) =
              convert_loaded-same r ci x s1 scalar
                (loaded-fits s.core.memory (s.env p.name) ds provided bytes) in
            let code : List (Inst T) =
              ptr_to_int pii p ∷ call ci (hero_load ds) (pii ∷ []) ∷ cti ∷ [] in
            let s2 = set ci x s1 in
            (
              code,
              next + 2,
              rw (here, differs, converted) refl,
              omega arith,
              Follows-some code s' _ (set r x s) (set r x s2) (step-load r p s)
                  (runs (cti ∷ []) ∙ exec-last t w cti s2 (set r x s2) casts)
                  (set-Agrees n r refl (set_new-Agrees n ci x (omega arith) agrees)),
            )
      ]

  pub load-IsVisited :
      (is_support : Bool) (next : ℕ) (r p : Value T) {s' s : State}
      → n ≤ next
      → (r.name < n) × (p.name < n)
      → Agrees n s' s
      → IsAccess t w p r.ty s
      → IsVisited t w n next (visit_load t is_support next r p) s' (step t w (load r p) s)
  unfolding visit_load
  load-IsVisited true next r p new below a reaches = kept-IsVisited next (load r p) below a
  load-IsVisited false next r p new below a reaches =
      elim (Bool-cases (t.address_space p.ty == host_space t)) [
        | inl host ↦ host_load-IsVisited next r p new below a (ground arith) reaches
        | inr device ↦ rw device (kept-IsVisited next (load r p) below a)
      ]

  -- A cast to an integer keeps the bits that are stored.
  convert_stored-same :
      (r v : Value T) (bits a : ℕ) (m : Mem) (s : State)
      → IsScalar t v.ty
      → IsProvided bits
      → r.ty ≡ t.int_n bits
      → (cast : Inst T) × (y : ℕ) × (convert_stored t r v ≡ some cast)
        × (step t w cast s ≡ some (set r y s))
        × (store_bytes m a y (bits / 8) ≡ store_bytes m a (s.env v.name) (bits / 8))
  unfolding convert_stored step
  convert_stored-same r v bits a m s scalar provided int = elim (Bool-cases (t.is_pointer v.ty)) [
    | inl pointer ↦
        let width : t.primitive_bits r.ty ≡ bits = ap t.primitive_bits int ∙ l.primitive_int bits in
        (
          ptr_to_int r v,
          s.env v.name % 2 ^ t.primitive_bits r.ty,
          rw pointer refl,
          refl,
          ap (λ k. store_bytes m a (s.env v.name % 2 ^ k) (bits / 8)) width
              ∙ store_bytes-mod m a (s.env v.name) bits provided,
        )
    | inr no_pointer ↦
        let plain : (t.is_first_class v.ty && not (t.is_aggregate v.ty)) ≡ true = ground arith in
        (bit_cast r v, s.env v.name, rw (no_pointer, plain) refl, refl, refl)
  ]

  host_store-IsVisited :
      (next : ℕ) (p v : Value T) {s' s : State}
      → n ≤ next
      → (p.name < n) × (v.name < n)
      → Agrees n s' s
      → t.address_space p.ty ≡ host_space t
      → IsAccess t w p v.ty s
      → IsVisited t w n next (visit_store t next p v) s' (step t w (store p v) s)
  unfolding visit_store
  host_store-IsVisited next p v {s'} {s} new (lo, below) a host reaches =
      let (pointer, scalar, provided, fits, bytes) = reaches host in
      let ds = data_bits t v.ty in
      let here : (t.address_space p.ty == host_space t) ≡ true = ground arith in
      let pii : Value T = record { name = next; ty = t.int_n (t.alloc_bits p.ty) } in
      let svi : Value T = record { name = next + 1; ty = t.int_n ds } in
      let ci : Value T = record { name = next + 2; ty = t.int_n ds } in
      let (s1, first, at, agrees) = host_address p next (ds / 8) s' s lo new a pointer host fits in
      let value : s1.env v.name ≡ s.env v.name = agrees.env v.name below in
      elim (Bool-cases (t.same v.ty (t.int_n ds))) [
        | inl same ↦
            let (d, stored, second) =
              store_call t w ci pii v ds (s.env p.name) (s.env v.name) s.core s1 at
                (ap (λ y. store_bytes s.core.memory (s.env p.name) y (ds / 8)) value) agrees.core
                provided fits in
            let stores : Inst T = call ci (hero_store ds) (pii ∷ v ∷ []) in
            let code : List (Inst T) = ptr_to_int pii p ∷ stores ∷ [] in
            (
              code,
              next + 3,
              rw (here, same) refl,
              omega arith,
              Follows-some code s' _ _ (with_core d s1) (step-store p v s)
                  (exec-step t w (ptr_to_int pii p) (stores ∷ []) s' s1 first
                    ∙ exec-last t w stores s1 (with_core d s1) second)
                  (record { env = agrees.env; core = stored }),
            )
        | inr differs ↦
            let (cast, y, converted, casts, kept) =
              convert_stored-same svi v ds (s.env p.name) s.core.memory s1 scalar provided refl in
            let s2 = set svi y s1 in
            let (d, stored, second) =
              store_call t w ci pii svi ds (s.env p.name) (s.env v.name) s.core s2 (ground arith)
                (ap (λ y. store_bytes s.core.memory (s.env p.name) y (ds / 8)) (set_self svi y s1)
                  ∙ kept
                  ∙ ap (λ y. store_bytes s.core.memory (s.env p.name) y (ds / 8)) value)
                agrees.core provided fits in
            let agrees2 = set_new-Agrees n svi y (omega arith) agrees in
            let stores : Inst T = call ci (hero_store ds) (pii ∷ svi ∷ []) in
            let code : List (Inst T) = ptr_to_int pii p ∷ cast ∷ stores ∷ [] in
            (
              code,
              next + 3,
              rw (here, differs, converted) refl,
              omega arith,
              Follows-some code s' _ _ (with_core d s2) (step-store p v s)
                  (exec-step t w (ptr_to_int pii p) (cast ∷ stores ∷ []) s' s1 first
                    ∙ exec-step t w cast (stores ∷ []) s1 s2 casts
                    ∙ exec-last t w stores s2 (with_core d s2) second)
                  (record { env = agrees2.env; core = stored }),
            )
      ]

  pub store-IsVisited :
      (next : ℕ) (p v : Value T) {s' s : State}
      → n ≤ next
      → (p.name < n) × (v.name < n)
      → Agrees n s' s
      → IsAccess t w p v.ty s
      → IsVisited t w n next (visit_store t next p v) s' (step t w (store p v) s)
  unfolding visit_store
  store-IsVisited next p v new below a reaches =
      elim (Bool-cases (t.address_space p.ty == host_space t)) [
        | inl host ↦ host_store-IsVisited next p v new below a (ground arith) reaches
        | inr device ↦ rw device (kept-IsVisited next (store p v) below a)
      ]

  -- A cast between the address spaces extends the address with zeros, or cuts it.
  pub addr_space_cast-IsVisited :
      (next : ℕ) (r p : Value T) {s' s : State}
      → n ≤ next
      → (r.name < n) × (p.name < n)
      → Agrees n s' s
      → IsVisited t w n next
          (visit_addr_space_cast t next r p)
          s'
          (step t w (addr_space_cast r p) s)
  unfolding visit_addr_space_cast
  addr_space_cast-IsVisited next r p {s'} {s} new (lo, below) a =
      elim (Bool-cases (is_crossing t (t.address_space p.ty) (t.address_space r.ty))) [
        | inl crossing ↦
            let bits = t.alloc_bits r.ty in
            let pii : Value T = record { name = next; ty = t.int_n bits } in
            let x = s'.env p.name % 2 ^ t.primitive_bits (t.int_n bits) in
            let back : x % 2 ^ bits ≡ s.env p.name % 2 ^ bits =
              ap (λ k. s'.env p.name % 2 ^ k % 2 ^ bits) (l.primitive_int bits)
              ∙ mod-mod (s'.env p.name) (2 ^ bits)
              ∙ ap (λ y. y % 2 ^ bits) (a.env p.name below) in
            let s1 = set pii x s' in
            let code : List (Inst T) = ptr_to_int pii p ∷ int_to_ptr r pii ∷ [] in
            let returns =
              (step-cast r pii s1).1
              ∙ ap (λ y. some (set r (y % 2 ^ bits) s1)) (set_self pii x s') in
            (
              code,
              next + 1,
              rw crossing refl,
              omega arith,
              Follows-some code s' _ _ (set r (x % 2 ^ bits) s1) (step-cast r p s).0
                  (exec-step t w (ptr_to_int pii p) (int_to_ptr r pii ∷ []) s' s1
                      (step-cast pii p s').2
                    ∙ exec-last t w (int_to_ptr r pii) s1 (set r (x % 2 ^ bits) s1) returns)
                  (set-Agrees n r back (set_new-Agrees n pii x new a)),
            )
        | inr inside ↦ rw inside (kept-IsVisited next (addr_space_cast r p) (lo, below) a)
      ]
