-- ===== src/Hero64/Laws.antt =====
-- What a load at a 64-bit address finds after a store.
use hero_tools.Prelude.{
  ℕ, zero, suc, ◌+◌, ◌-◌, ◌*◌, ◌/◌, ◌%◌, ◌^◌, ◌≤◌, ◌<◌, ◌≡◌, ◌⊎◌, inl, refl, ◌∙◌, ap, Bool, true,
  false, List, [], ◌∷◌, ◌++◌, arith,
}
use native.Mathlib.Nat.{pow-suc, zero-add}
use hero_tools.Prelude.Bits.{add64}
use hero_tools.Prelude.Memory.{Mem, write_byte}
use hero_tools.Hero64.{
  Access, Core, upper32, lower32, load_bytes, store_bytes, load_noblock, store_noblock, load, store,
  hero_load_uint64, hero_store_uint64,
}

store_bytes-other :
    (m : Mem) (a val n x : ℕ) → (x < a) ⊎ (a + n ≤ x) → store_bytes m a val n x ≡ m x
store_bytes-other m a val zero x apart = refl
store_bytes-other m a val (suc n) x apart =
    store_bytes-other (write_byte m a (val % 256)) (a + 1) (val / 256) n x (ground arith)
    ∙ ground arith

load_bytes_ext :
    (m k : Mem) (a n : ℕ)
    → ((x : ℕ) → a ≤ x → x < a + n → m x ≡ k x)
    → load_bytes m a n ≡ load_bytes k a n
load_bytes_ext m k a zero same = refl
load_bytes_ext m k a (suc n) same = ground (
  arith,
  same a (omega arith) (omega arith),
  load_bytes_ext m k (a + 1) n λ x lo hi. same x (omega arith) (omega arith),
)

-- Bytes stored are loaded again.
load-store_bytes :
    (m : Mem) (a val n : ℕ) → val < 256 ^ n → load_bytes (store_bytes m a val n) a n ≡ val
load-store_bytes m a val zero small = omega arith
load-store_bytes m a val (suc n) small =
    let rest : val / 256 < 256 ^ n = omega (arith, pow-suc 256 n) in
    ground (
      arith,
      pow-suc 256 n,
      store_bytes-other (write_byte m a (val % 256)) (a + 1) (val / 256) n a (inl (omega arith)),
      load-store_bytes (write_byte m a (val % 256)) (a + 1) (val / 256) n rest,
    )

-- The two words of a 64-bit access lie apart, also where they wrap.
words_apart :
    (addr x : ℕ)
    → lower32 addr ≤ x
    → x < lower32 addr + 4
    → (x < lower32 (add64 addr 4)) ⊎ (lower32 (add64 addr 4) + 4 ≤ x)
words_apart addr x lo hi = ground arith

lower32-add64 :
    (addr other : ℕ)
    → lower32 other ≡ lower32 addr
    → lower32 (add64 other 4) ≡ lower32 (add64 addr 4)
lower32-add64 addr other same = omega arith

-- An access of a word, with the two lowest bits of `mstatus` cleared.
abbrev pub word_access : (stores : Bool) → (addr : ℕ) → Core → Access
word_access stores addr c = record {
  address = lower32 addr;
  bytes = 4;
  stores = stores;
  mstatus = c.mstatus - c.mstatus % 4;
}

pub store-words :
    (addr val : ℕ) (c : Core)
    → hero_store_uint64 addr val c ≡ record {
      memory =
          store_bytes
            (store_bytes c.memory (lower32 addr) (lower32 val) 4)
            (lower32 (add64 addr 4))
            (upper32 val)
            4;
      mstatus = c.mstatus;
      mseg = 0;
      accesses =
          (c.accesses ++ (word_access true addr c ∷ []))
          ++ (word_access true (add64 addr 4) c ∷ []);
    }
unfolding hero_store_uint64 store store_noblock
store-words addr val c = rw (zero-add (lower32 addr), zero-add (lower32 (add64 addr 4))) refl

pub load-words :
    (addr : ℕ) (c : Core)
    → hero_load_uint64 addr c ≡ (
      load_bytes c.memory (lower32 (add64 addr 4)) 4 * 2 ^ 32
          + load_bytes c.memory (lower32 addr) 4,
      record c {
        mseg = 0;
        accesses =
            (c.accesses ++ (word_access false addr c ∷ []))
            ++ (word_access false (add64 addr 4) c ∷ []);
      },
    )
unfolding hero_load_uint64 load load_noblock
load-words addr c = rw (zero-add (lower32 addr), zero-add (lower32 (add64 addr 4))) refl

append_each :
    (xs : List Access) (a b x y : Access)
    → (((xs ++ (a ∷ [])) ++ (b ∷ [])) ++ (x ∷ [])) ++ (y ∷ []) ≡ xs ++ (a ∷ b ∷ x ∷ y ∷ [])
append_each [] a b x y = refl
append_each (z ∷ xs) a b x y = ap (λ l. z ∷ l) (append_each xs a b x y)

-- A word stored, and the upper word behind it, are both loaded again.
stored_words :
    (m : Mem) (addr val : ℕ)
    → val < 2 ^ 64
    → let b = lower32 (add64 addr 4) in
      let m' = store_bytes (store_bytes m (lower32 addr) (lower32 val) 4) b (upper32 val) 4 in
      load_bytes m' b 4 * 2 ^ 32 + load_bytes m' (lower32 addr) 4 ≡ val
stored_words m addr val small =
    let a = lower32 addr in
    let b = lower32 (add64 addr 4) in
    let m1 = store_bytes m a (lower32 val) 4 in
    let m2 = store_bytes m1 b (upper32 val) 4 in
    let low : load_bytes m2 a 4 ≡ lower32 val =
      load_bytes_ext m2 m1 a 4
        (λ x lo hi. store_bytes-other m1 b (upper32 val) 4 x (words_apart addr x lo hi))
      ∙ load-store_bytes m a (lower32 val) 4 (omega arith) in
    let high : load_bytes m2 b 4 ≡ upper32 val =
      load-store_bytes m1 b (upper32 val) 4 (omega arith) in
    rw (low, high) (omega arith)

-- `hero_load_uint64` loads what `hero_store_uint64` stored, from every address with the same lower
-- 32 bits: the upper bits are not used. The load changes neither the memory nor `mstatus`, both
-- access the lower word before the upper one, and the accesses are made with the machine's
-- interrupt bit of `mstatus` as it was. The value is below 2^64.
pub hero_load-store_uint64 :
    (addr other val : ℕ) (c : Core)
    → val < 2 ^ 64
    → lower32 other ≡ lower32 addr
    → let c1 = hero_store_uint64 addr val c in
      let (loaded, c2) = hero_load_uint64 other c1 in
      (loaded ≡ val)
      × (c2.memory ≡ c1.memory)
      × (c2.mstatus ≡ c.mstatus)
      × (c2.accesses
          ≡ c.accesses
            ++ (word_access true addr c
                ∷ word_access true (add64 addr 4) c
                ∷ word_access false addr c
                ∷ word_access false (add64 addr 4) c
                ∷ []))
      × ((word_access true addr c).mstatus / 8 % 2 ≡ c.mstatus / 8 % 2)
hero_load-store_uint64 addr other val c small same = rw (store-words addr val c) (
    rw (load-words other _, same, lower32-add64 addr other same)
      (
        stored_words c.memory addr val small,
        refl,
        refl,
        append_each c.accesses _ _ _ _,
        omega arith,
      ))
