-- ===== src/Legalizer/Support.antt =====
-- The functions of hero_64.h at an address below 2^32: they load and store the bytes there.
use hero_tools.Prelude.{
  ℕ, zero, suc, ◌+◌, ◌*◌, ◌/◌, ◌%◌, ◌^◌, ◌≤◌, ◌<◌, ◌≡◌, ◌⊎◌, inl, inr, refl, sym, ◌∙◌, ap, ap₂,
  some, arith,
}
use hero_tools.Prelude.Bits.{add64}
use hero_tools.Prelude.Memory.{Mem, write_byte}
use native.Mathlib.Nat.{pow-suc, mul_comm, mul_assoc}
use hero_tools.Hero64.{
  Core, upper32, lower32, load_bytes, store_bytes, load_noblock, store_noblock, load, store,
  hero_load_uint64, hero_store_uint64,
}
use hero_tools.Hero64.Laws.{load-words, store-words}
use hero_tools.Ir.Meaning.{support_load, support_store}

-- The sizes for which hero_64.h has functions.
abbrev pub IsProvided : ℕ → Type 0
IsProvided bits = (bits ≡ 64) ⊎ (bits ≡ 32) ⊎ (bits ≡ 16) ⊎ (bits ≡ 8)

-- What the passes' code can tell of the core.
pub record IsSame (d c : Core) : Type 0 where
  pub memory : d.memory ≡ c.memory
  pub mstatus : d.mstatus ≡ c.mstatus

low : (addr n : ℕ) → 0 < n → addr + n ≤ 2 ^ 32 → 0 * 2 ^ 32 + lower32 addr ≡ addr
low addr n pos fits = omega arith

low_word : (addr : ℕ) → addr + 8 ≤ 2 ^ 32 → lower32 (add64 addr 4) ≡ addr + 4
low_word addr fits = omega arith

load-bytes :
    (n addr : ℕ) (c : Core)
    → 0 < n
    → addr + n ≤ 2 ^ 32
    → (d : Core) × (load n addr c ≡ (load_bytes c.memory addr n, d)) × IsSame d c
unfolding load load_noblock
load-bytes n addr c pos fits = (
  _,
  (λ i. (load_bytes c.memory (low addr n pos fits i) n, (load n addr c).1)),
  record { memory = refl; mstatus = refl },
)

load_bytes-words :
    (m : Mem) (a : ℕ) → load_bytes m (a + 4) 4 * 2 ^ 32 + load_bytes m a 4 ≡ load_bytes m a 8
load_bytes-words m a = let e4 : a + 4 ≡ a + 1 + 1 + 1 + 1 = omega arith in rw e4 (omega arith)

store-bytes :
    (n addr val : ℕ) (c : Core)
    → 0 < n
    → addr + n ≤ 2 ^ 32
    → (store n addr val c).memory ≡ store_bytes c.memory addr val n
unfolding store store_noblock
store-bytes n addr val c pos fits = rw (low addr n pos fits) refl

-- What lies above the bytes of a value is not stored.
store_bytes-above :
    (m : Mem) (a val q n : ℕ) → store_bytes m a (val + 256 ^ n * q) n ≡ store_bytes m a val n
store_bytes-above m a val q zero = refl
store_bytes-above m a val q (suc n) =
    let above : 256 ^ suc n * q ≡ 256 * (256 ^ n * q) =
      ap (λ k. k * q) (pow-suc 256 n ∙ mul_comm (256 ^ n) 256) ∙ mul_assoc 256 (256 ^ n) q in
    let byte : (val + 256 ^ suc n * q) % 256 ≡ val % 256 = omega (arith, above) in
    let rest : (val + 256 ^ suc n * q) / 256 ≡ val / 256 + 256 ^ n * q = omega (arith, above) in
    rw (byte, rest) (store_bytes-above (write_byte m a (val % 256)) (a + 1) (val / 256) q n)

store_bytes-low :
    (m : Mem) (a val n : ℕ) {k : ℕ}
    → 256 ^ n ≡ k
    → val ≡ val % k + k * (val / k)
    → store_bytes m a (val % k) n ≡ store_bytes m a val n
store_bytes-low m a val n {k} e parts =
    sym (store_bytes-above m a (val % k) (val / k) n)
    ∙ ap (λ x. store_bytes m a x n) (ap (λ j. val % k + j * (val / k)) e ∙ sym parts)

-- Only the lowest bytes of a value are stored.
pub store_bytes-mod :
    (m : Mem) (a val bits : ℕ)
    → IsProvided bits
    → store_bytes m a (val % 2 ^ bits) (bits / 8) ≡ store_bytes m a val (bits / 8)
store_bytes-mod m a val bits (inl e) = rw e (store_bytes-low m a val 8 refl (omega arith))
store_bytes-mod m a val bits (inr (inl e)) = rw e (store_bytes-low m a val 4 refl (omega arith))
store_bytes-mod m a val bits (inr (inr (inl e))) =
    rw e (store_bytes-low m a val 2 refl (omega arith))
store_bytes-mod m a val bits (inr (inr (inr e))) =
    rw e (store_bytes-low m a val 1 refl (omega arith))

store_bytes-words :
    (m : Mem) (a val : ℕ)
    → store_bytes (store_bytes m a (lower32 val) 4) (a + 4) (upper32 val) 4 ≡ store_bytes m a val 8
store_bytes-words m a val =
    let e4 : a + 4 ≡ a + 1 + 1 + 1 + 1 = omega arith in
    let upper : upper32 val ≡ val / 256 / 256 / 256 / 256 = omega arith in
    ap (λ k. store_bytes k (a + 4) (upper32 val) 4) (store_bytes-low m a val 4 refl (omega arith))
    ∙ ap₂ (λ b v. store_bytes (store_bytes m a val 4) b v 4) e4 upper

-- What a load of `n` bytes by a function of hero_64.h is.
abbrev pub Loads : (bits addr : ℕ) → Core → (n : ℕ) → Type 0
Loads bits addr c n =
    (d : Core) × (support_load bits addr c ≡ some (load_bytes c.memory addr n, d)) × IsSame d c

abbrev pub Stores : (bits addr val : ℕ) → Core → (n : ℕ) → Type 0
Stores bits addr val c n =
    (d : Core) × (support_store bits addr val c ≡ some d)
    × (d.memory ≡ store_bytes c.memory addr val n)
    × (d.mstatus ≡ c.mstatus)

load64 : (addr : ℕ) (c : Core) → addr + 8 ≤ 2 ^ 32 → Loads 64 addr c 8
load64 addr c fits =
    let low : lower32 addr ≡ addr = omega arith in
    let words : load_bytes c.memory (lower32 (add64 addr 4)) 4 * 2 ^ 32
          + load_bytes c.memory (lower32 addr) 4
        ≡ load_bytes c.memory addr 8 =
      ap₂ (λ b a. load_bytes c.memory b 4 * 2 ^ 32 + load_bytes c.memory a 4) (low_word addr fits)
        low
      ∙ load_bytes-words c.memory addr in
    (
      (hero_load_uint64 addr c).1,
      ap (λ x. some (x, (hero_load_uint64 addr c).1)) (ap (λ r. r.0) (load-words addr c) ∙ words),
      record {
        memory = ap (λ r. (r.1).memory) (load-words addr c);
        mstatus = ap (λ r. (r.1).mstatus) (load-words addr c);
      },
    )

-- A load by the pass is a load of the bytes.
pub support_load-bytes :
    (bits addr : ℕ) (c : Core)
    → IsProvided bits
    → addr + bits / 8 ≤ 2 ^ 32
    → Loads bits addr c (bits / 8)
support_load-bytes bits addr c (inl e) fits = rw e (load64 addr c (omega arith))
support_load-bytes bits addr c (inr (inl e)) fits = rw e (
    let (d, runs, same) = load-bytes 4 addr c (omega arith) (omega arith) in
    (d, ap some runs, same))
support_load-bytes bits addr c (inr (inr (inl e))) fits = rw e (
    let (d, runs, same) = load-bytes 2 addr c (omega arith) (omega arith) in
    (d, ap some runs, same))
support_load-bytes bits addr c (inr (inr (inr e))) fits = rw e (
    let (d, runs, same) = load-bytes 1 addr c (omega arith) (omega arith) in
    (d, ap some runs, same))

store64 : (addr val : ℕ) (c : Core) → addr + 8 ≤ 2 ^ 32 → Stores 64 addr val c 8
store64 addr val c fits =
    let low : lower32 addr ≡ addr = omega arith in
    let words : store_bytes (store_bytes c.memory (lower32 addr) (lower32 val) 4)
          (lower32 (add64 addr 4)) (upper32 val) 4
        ≡ store_bytes c.memory addr val 8 =
      ap₂ (λ a b. store_bytes (store_bytes c.memory a (lower32 val) 4) b (upper32 val) 4) low
        (low_word addr fits)
      ∙ store_bytes-words c.memory addr val in
    (
      hero_store_uint64 addr val c,
      refl,
      ap (λ d. d.memory) (store-words addr val c) ∙ words,
      ap (λ d. d.mstatus) (store-words addr val c),
    )

store-mstatus : (n addr val : ℕ) (c : Core) → (store n addr val c).mstatus ≡ c.mstatus
unfolding store store_noblock
store-mstatus n addr val c = refl

-- A store by the pass is a store of the bytes.
pub support_store-bytes :
    (bits addr val : ℕ) (c : Core)
    → IsProvided bits
    → addr + bits / 8 ≤ 2 ^ 32
    → Stores bits addr val c (bits / 8)
support_store-bytes bits addr val c (inl e) fits = rw e (store64 addr val c (omega arith))
support_store-bytes bits addr val c (inr (inl e)) fits = rw e (
  store 4 addr val c,
  refl,
  store-bytes 4 addr val c (omega arith) (omega arith),
  store-mstatus 4 addr val c,
)
support_store-bytes bits addr val c (inr (inr (inl e))) fits = rw e (
  store 2 addr val c,
  refl,
  store-bytes 2 addr val c (omega arith) (omega arith),
  store-mstatus 2 addr val c,
)
support_store-bytes bits addr val c (inr (inr (inr e))) fits = rw e (
  store 1 addr val c,
  refl,
  store-bytes 1 addr val c (omega arith) (omega arith),
  store-mstatus 1 addr val c,
)
