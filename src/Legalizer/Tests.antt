-- ===== src/Legalizer/Tests.antt =====
-- A float loaded from the host's memory and stored there again, in a device's function.
use hero_tools.Prelude.{
  ℕ, ◌+◌, ◌%◌, ◌≡◌, inl, inr, refl, false, some, List, [], ◌∷◌, arith, ◌==◌, if◌then◌else◌,
}
use hero_tools.Prelude.Partial.{Ensures}
use hero_tools.Hero64.{load_bytes, store_bytes}
use hero_tools.Ir.{
  Value, memcpy, hero_load, hero_store, Inst, load, store, ptr_to_int, bit_cast, call,
  mem_intrinsic,
}
use hero_tools.Ir.Meaning.{State, set, with_memory, step, exec}
use hero_tools.Legalizer.{convert_loaded, convert_stored, visit_load, visit_store, visit, visit_all}
use hero_tools.Legalizer.Fixture.{Ty, int, float, pointer, types, types-IsLlvm, world}
use hero_tools.Legalizer.Agree.{Agrees}
use hero_tools.Legalizer.Runs.{AllReach}
use hero_tools.Legalizer.Correct.{visit_all-exec}
use hero_tools.Legalizer.Typed.{AreTyped, visit_all-AreTyped}
use hero_tools.Legalizer.Constants.{
  Const, constant, addr_space_cast as cast, expr, nil, cons, handle,
}
use hero_tools.Legalizer.ConstantLaws.{value, IsPatched, handle-value}
use hero_tools.Legalizer.Module.{Function, Expand, run_on_module}
use hero_tools.Legalizer.Static.{AreAllLegal}
use hero_tools.Legalizer.Total.{run_on_module-AreAllLegal}

abbrev source : Value Ty
source = record { name = 0; ty = pointer 1 }

abbrev number : Value Ty
number = record { name = 1; ty = float }

abbrev dest : Value Ty
dest = record { name = 2; ty = pointer 1 }

abbrev copy : List (Inst Ty)
copy = load number source ∷ store dest number ∷ []

abbrev start : State
start = record {
  env = λ k. if k == 0 then 0x1000 else 0x2000;
  core = record { memory = λ x. x % 256; mstatus = 8; mseg = 0; accesses = [] };
}

abbrev end : State
end =
    with_memory (store_bytes (λ x. x % 256) 0x2000 (load_bytes (λ x. x % 256) 0x1000 4) 4)
      (set number (load_bytes (λ x. x % 256) 0x1000 4) start)

copy_run : exec types world copy start ≡ some end
unfolding exec step
copy_run = refl

copy_reach : AllReach types world copy start
unfolding step
copy_reach = (
  (λ host. (refl, inr (refl, refl), inr (inl refl), omega arith, λ x. omega arith)),
  ((λ host. (refl, inr (refl, refl), inr (inl refl), omega arith, λ x. omega arith)), tt),
)

visit_all-exec_example :
    (code : List (Inst Ty)) × (visit_all types false 3 copy ≡ some code)
    × (u' : State) × (exec types world code start ≡ some u')
    × Agrees 3 u' end
visit_all-exec_example =
    visit_all-exec types types-IsLlvm world 3 false copy start end
      ((omega arith, omega arith), ((omega arith, omega arith), tt)) copy_reach copy_run

visit_all-AreTyped_example : Ensures (AreTyped types) (visit_all types false 3 copy)
visit_all-AreTyped_example =
    visit_all-AreTyped types types-IsLlvm false 3 copy
      ((refl, omega arith), ((refl, omega arith), tt))

-- What the pass makes of it.
abbrev legalized : List (Inst Ty)
legalized =
    ptr_to_int (record { name = 3; ty = int 64 }) source
    ∷ call (record { name = 4; ty = int 32 }) (hero_load 32) (record { name = 3; ty = int 64 } ∷ [])
    ∷ bit_cast number (record { name = 4; ty = int 32 })
    ∷ ptr_to_int (record { name = 5; ty = int 64 }) dest
    ∷ bit_cast (record { name = 6; ty = int 32 }) number
    ∷ call (record { name = 7; ty = int 32 }) (hero_store 32)
        (record { name = 5; ty = int 64 } ∷ record { name = 6; ty = int 32 } ∷ [])
    ∷ []

copy_visited : visit_all types false 3 copy ≡ some legalized
unfolding visit_all visit visit_load visit_store convert_loaded convert_stored
copy_visited = refl

-- A constant cast of a device's address to the host's space, in a sum.
abbrev casted_sum : Const Ty
casted_sum = expr (pointer 1) 7 (cons (cast (pointer 1) (constant (pointer 0) 0x1000)) nil)

abbrev first : ℕ → List ℕ → ℕ
first opcode [] = 0
first opcode (x ∷ xs) = x

handle-value_example :
    (value types first (handle types casted_sum) ≡ value types first casted_sum)
    × IsPatched types (handle types casted_sum)
handle-value_example = handle-value types types-IsLlvm first casted_sum

-- Copies of one float.
abbrev expand : Expand Ty
expand k d s l next = (
  load (record { name = next; ty = float }) s ∷ store d (record { name = next; ty = float }) ∷ [],
  next + 1,
)

abbrev kernel : Function Ty
kernel = record {
  name = "kernel";
  next = 3;
  body = mem_intrinsic memcpy dest source number ∷ copy;
  constants = casted_sum ∷ [];
}

run_on_module-AreAllLegal_example :
    (gs : List (Function Ty)) × (run_on_module types expand (kernel ∷ []) ≡ some gs)
    × AreAllLegal types gs
run_on_module-AreAllLegal_example =
    run_on_module-AreAllLegal types expand (λ k d s l next. (tt, (tt, tt)))
      (λ k d s l next. (inr (refl, refl), (inr (refl, refl), tt))) (kernel ∷ [])
      ((tt, (inr (refl, refl), (inr (refl, refl), tt))), tt)
