-- ===== src/Legalizer/Constants.antt =====
-- The constant expressions: `handleConstExpr`. The constant in place of a cast takes its uses, and the
-- operands are handled next; a cast between other address spaces ends the descent.
use hero_tools.Prelude.{ℕ, if◌then◌else◌}
use hero_tools.Ir.{Types}
use hero_tools.Legalizer.{is_crossing}

mutual
  -- A constant that is no expression has its bits. `expr` is any other operation.
  pub data Const (T : Type 0) : Type 0 where
    constant : T → (bits : ℕ) → Const T
    addr_space_cast : T → Const T → Const T
    ptr_to_int : T → Const T → Const T
    int_to_ptr : T → Const T → Const T
    expr : T → (opcode : ℕ) → Consts T → Const T

  pub data Consts (T : Type 0) : Type 0 where
    nil : Consts T
    cons : Const T → Consts T → Consts T

module _ {T : Type 0} where
  abbrev pub type_of : Const T → T
  type_of (constant ty bits) = ty
  type_of (addr_space_cast ty c) = ty
  type_of (ptr_to_int ty c) = ty
  type_of (int_to_ptr ty c) = ty
  type_of (expr ty opcode cs) = ty

module _ {T : Type 0} (t : Types T) where
  unfoldable mutual
    pub handle : Const T → Const T
    handle (constant ty bits) = constant ty bits
    handle (addr_space_cast ty c) =
        let handled = handle c in
        if is_crossing t (t.address_space (type_of c)) (t.address_space ty)
        then int_to_ptr ty (ptr_to_int (t.int_n (t.alloc_bits ty)) handled)
        else addr_space_cast ty c
    handle (ptr_to_int ty c) = ptr_to_int ty (handle c)
    handle (int_to_ptr ty c) = int_to_ptr ty (handle c)
    handle (expr ty opcode cs) = expr ty opcode (handle_all cs)

    pub handle_all : Consts T → Consts T
    handle_all nil = nil
    handle_all (cons c cs) = cons (handle c) (handle_all cs)
