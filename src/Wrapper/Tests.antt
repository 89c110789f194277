-- ===== src/Wrapper/Tests.antt =====
-- A kernel with a float and a host's pointer, in a module with one entry.
use Prim.Native.String.{String, ◌++◌ as append}
use mathlib.Core.Option.{some-injective}
use text.Mathlib.Text.{◌==◌ as str_eq}
use text.Mathlib.TextEquality.{eq_iff}
use hero_tools.Wrapper.Named.{AreNamed, AreForked}
use hero_tools.Wrapper.Forks.{wrap_omp_outlined_funcs-AreForked}
use hero_tools.Prelude.{
  ℕ, zero, suc, ◌<◌, ◌≢◌, ◌⊎◌, sym, ap, ◌∙◌, none, get_elem?, ◌≡◌, inl, inr, refl, false, some,
  List, [], ◌∷◌, arith, ◌==◌, if◌then◌else◌,
}
use hero_tools.Ir.{Inst}
use hero_tools.Ir.Meaning.{State, exec}
use hero_tools.Legalizer.{visit_all}
use hero_tools.Legalizer.Fixture.{Ty, int, float, pointer, types, types-IsLlvm, world}
use hero_tools.Wrapper.{
  Fn, wrapper_prefix, wrap_omp_outlined_funcs, Module, kernel_wrapper_body, outlined_wrapper_body,
}
use hero_tools.Wrapper.Correct.{kernel_wrapper-legalized}
use hero_tools.Wrapper.Outlined.{outlined_wrapper-calls}
use hero_tools.Wrapper.Sizes.{constant_data_array, value, sizes, Call}

abbrev params : List Ty
params = float ∷ pointer 1 ∷ []

-- A buffer at 0x1000: the bits of 1.0f, and the address 0x2000.
abbrev start : State
start = record {
  env = λ k. 0x1000;
  core = record {
    memory = λ x.
        if x == 0x1003 then 0x3f else if x == 0x1002 then 0x80 else if x == 0x1009 then 0x20 else 0;
    mstatus = 8;
    mseg = 0;
    accesses = [];
  };
}

kernel_wrapper-legalized_example :
    (code : List (Inst Ty)) × (visit_all types false 9 (kernel_wrapper_body types 5 params)
      ≡ some code)
    × (u : State) × (exec types world code start ≡ some u)
    × (u.core.memory ≡ (world.called 5 (0x3f800000 ∷ 0x2000 ∷ []) start.core.memory).1)
    × (u.core.mstatus ≡ 8)
kernel_wrapper-legalized_example =
    kernel_wrapper-legalized types types-IsLlvm world 5 params false start 0x1000
      (0x3f800000 ∷ 0x2000 ∷ []) refl (λ x. ground arith) (refl, (refl, tt))
      (inr (inl refl), omega arith, (inl refl, omega arith, tt))
      (inr (refl, refl), inr (inl refl), (inl refl, inl refl, tt)) (omega arith) (omega arith)

abbrev device_module : Module Ty
device_module = record {
  triple = "riscv32-hero-hero-elf";
  functions =
      record { name = "kernel"; params = params; body = [] }
      ∷ record { name = "helper"; params = []; body = [] }
      ∷ [];
  globals =
      record { name = ".omp_offloading.entry.kernel"; target = some 0 }
      ∷ record { name = "table"; target = some 1 }
      ∷ [];
  forks = [];
}

-- A call with two sizes of 32 bits.
abbrev target_call : Call Ty
target_call = record {
  callee = "__tgt_target";
  args =
      value (record { name = 0; ty = int 64 })
      ∷ sizes (record { bits = 32; initializer = constant_data_array (4 ∷ 1024 ∷ []) })
      ∷ [];
}

-- A buffer at 0x1000 with two arguments of 4 bytes; the threads' numbers lie there too.
outlined_wrapper-calls_example :
    (u : State) × (exec types world
        (outlined_wrapper_body types 3 (pointer 0 ∷ pointer 0 ∷ pointer 0 ∷ float ∷ []))
        start
      ≡ some u)
    × (u.core ≡ record start.core {
      memory = (world.called 3 (0x1000 ∷ 0x1000 ∷ 0x3f800000 ∷ 0 ∷ []) start.core.memory).1;
    })
outlined_wrapper-calls_example =
    outlined_wrapper-calls types world 3 (pointer 0 ∷ pointer 0 ∷ pointer 0 ∷ float ∷ []) start
      (λ ty. refl) (omega arith)

-- Two forks of the same function, and one of a value that is no function.
abbrev forking_module : Module Ty
forking_module = record device_module { forks = some 0 ∷ none ∷ some 0 ∷ [] }

module_names :
    (i : ℕ) (f : Fn Ty)
    → get_elem? device_module.functions i ≡ some f
    → ((i ≡ 0) × (f.name ≡ "kernel")) ⊎ ((i ≡ 1) × (f.name ≡ "helper"))
module_names zero f e = inl (refl, sym (ap (λ x. x.name) (some-injective _ _ e)))
module_names (suc zero) f e = inr (refl, sym (ap (λ x. x.name) (some-injective _ _ e)))
module_names (suc (suc i)) f e = absurd (cc)

differ : (s t : String) → str_eq s t ≡ false → s ≢ t
differ s t apart e = absurd (cc (apart, (eq_iff s t).1 e))

module_AreNamed : AreNamed types device_module.functions
module_AreNamed = record {
  distinct = λ i j f g e e' same. elim (module_names i f e) [
    | inl (i0, f0) ↦ elim (module_names j g e') [
      | inl (j0, g0) ↦ i0 ∙ sym j0
      | inr (j1, g1) ↦ absurd (differ "kernel" "helper" refl (sym f0 ∙ same ∙ g1))
    ]
    | inr (i1, f1) ↦ elim (module_names j g e') [
      | inl (j0, g0) ↦ absurd (differ "helper" "kernel" refl (sym f1 ∙ same ∙ g0))
      | inr (j1, g1) ↦ i1 ∙ sym j1
    ]
  ];
  plain = λ i j f g e e' same. elim (module_names i f e) [
    | inl (i0, f0) ↦ elim (module_names j g e') [
      | inl (j0, g0) ↦
          differ "kernel" "__wrapper_ompkernel" refl (sym f0 ∙ same ∙ ap (append wrapper_prefix) g0)
      | inr (j1, g1) ↦
          differ "kernel" "__wrapper_omphelper" refl (sym f0 ∙ same ∙ ap (append wrapper_prefix) g1)
    ]
    | inr (i1, f1) ↦ elim (module_names j g e') [
      | inl (j0, g0) ↦
          differ "helper" "__wrapper_ompkernel" refl (sym f1 ∙ same ∙ ap (append wrapper_prefix) g0)
      | inr (j1, g1) ↦
          differ "helper" "__wrapper_omphelper" refl (sym f1 ∙ same ∙ ap (append wrapper_prefix) g1)
    ]
  ];
}

wrap_omp_outlined_funcs-AreForked_example :
    let m = wrap_omp_outlined_funcs types forking_module in
    AreForked types forking_module.functions m.functions forking_module.forks m.forks
    × ((i : ℕ) → i < 2 → get_elem? m.functions i ≡ get_elem? forking_module.functions i)
wrap_omp_outlined_funcs-AreForked_example =
    wrap_omp_outlined_funcs-AreForked types forking_module module_AreNamed
      ((λ p e. ground arith), ((λ p e. absurd (cc)), ((λ p e. ground arith), tt)))
