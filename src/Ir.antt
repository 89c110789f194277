-- ===== src/Ir.antt =====
-- The LLVM IR that the passes of toolchain/llvm-support read and write: the instructions that they name, and
-- LLVM's types, which are a parameter with the queries that the passes make. A value is a name and its type.
-- `replaceAllUsesWith` and the deletion that follows it are one step here: the last new instruction takes the
-- name of the old one, so that every use of it has the new value.
pub mod Meaning
use hero_tools.Prelude.{ℕ, ◌≡◌, ◌↔◌, Bool, true, false, List, ◌==◌, if◌then◌else◌}

-- llvm::Type and llvm::DataLayout.
pub record Types (T : Type 0) : Type 0 where
  pub int_n : (bits : ℕ) → T
  pub pointer_to : T → (space : ℕ) → T
  pub is_pointer : T → Bool
  pub is_first_class : T → Bool
  pub is_aggregate : T → Bool
  pub address_space : T → ℕ
  pub primitive_bits : T → ℕ
  pub alloc_bits : T → ℕ
  pub same : T → T → Bool
  -- getProgramAddressSpace()
  pub program_space : ℕ

pub record Value (T : Type 0) : Type 0 where
  pub name : ℕ
  pub ty : T

-- A function: "hero_load_uint<bits>", "hero_store_uint<bits>", and others by their place in the module.
pub data Callee : Type 0 where
  hero_load : (bits : ℕ) → Callee
  hero_store : (bits : ℕ) → Callee
  function : (place : ℕ) → Callee

pub data MemKind : Type 0 where
  memcpy : MemKind
  memmove : MemKind
  memset : MemKind

-- The result stands first. `other` is every instruction that no pass changes, by an opcode.
pub data Inst (T : Type 0) : Type 0 where
  load : (result pointer : Value T) → Inst T
  store : (pointer value : Value T) → Inst T
  addr_space_cast : (result pointer : Value T) → Inst T
  ptr_to_int : (result pointer : Value T) → Inst T
  int_to_ptr : (result value : Value T) → Inst T
  bit_cast : (result value : Value T) → Inst T
  gep : (element : T) → (result pointer : Value T) → (index : ℕ) → Inst T
  call : (result : Value T) → Callee → List (Value T) → Inst T
  mem_intrinsic : MemKind → (dest source length : Value T) → Inst T
  ret_void : Inst T
  other : (opcode : ℕ) → (result : Value T) → List (Value T) → Inst T

module _ {T : Type 0} (t : Types T) where
  -- The size of what is loaded or stored: `DS` of visitLoadInst and visitStoreInst.
  abbrev pub data_bits : T → ℕ
  data_bits ty = if t.primitive_bits ty == 0 then t.alloc_bits ty else t.primitive_bits ty

  -- `HostAS`, by `DeviceAS`.
  abbrev pub host_space : ℕ
  host_space = if t.program_space == 0 then 1 else 0

-- What LLVM's documentation says of the types that the passes use: integers have their width, which
-- takes 64 bits of memory when it is 64, pointers no primitive size, and those of the host 64 bits.
pub record IsLlvm {T : Type 0} (t : Types T) : Type 0 where
  pub same_iff : (a b : T) → (t.same a b ≡ true) ↔ (a ≡ b)
  pub primitive_int : (bits : ℕ) → t.primitive_bits (t.int_n bits) ≡ bits
  pub int_pointer : (bits : ℕ) → t.is_pointer (t.int_n bits) ≡ false
  pub primitive_pointer : (ty : T) → t.is_pointer ty ≡ true → t.primitive_bits ty ≡ 0
  pub pointer_pointer : (ty : T) (space : ℕ) → t.is_pointer (t.pointer_to ty space) ≡ true
  pub pointer_space : (ty : T) (space : ℕ) → t.address_space (t.pointer_to ty space) ≡ space
  pub alloc_int : t.alloc_bits (t.int_n 64) ≡ 64
  pub host_pointer :
      (ty : T) → t.is_pointer ty ≡ true → t.address_space ty ≡ host_space t → t.alloc_bits ty ≡ 64
