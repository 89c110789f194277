-- ===== src/Matvec/Main/Tests.antt =====
-- A matrix with three rows of two numbers, on a device whose vector registers hold two.
use native.Mathlib.Nat.{mul_comm}
use hero_tools.Prelude.{ℕ, ◌≡◌, refl, arith, some, [], inl, ◌==◌, ==_refl}
use hero_tools.Prelude.Int.{pos}
use hero_tools.Fdotp.{fdotp_naive_32b}
use hero_tools.Fdotp.Fixture.{naturals, naturals-IsExact, unit}
use hero_tools.Fdotp.Laws.{fdotp_rvv-naive}
use hero_tools.Matvec.Dma.{Machine, Device}
use hero_tools.Matvec.Laws.{AreLaidOut}
use hero_tools.Matvec.Main.{Buffers, Outcome, Numbers, args_of, main_matvec}
use hero_tools.Matvec.Main.Laws.{HasKernel, AreBelow, fdotp_naive-IsLocal, main_matvec-nopes}

abbrev numbers : Numbers ℕ
numbers = record { scalar = naturals; equal = ◌==◌; one = 1 }

abbrev cluster : Machine ℕ
cluster = record {
  of_int = λ i. i;
  fdotp_32b = fdotp_naive_32b naturals;
  core_idx = λ i. i;
  junk = λ k j. 99;
}

abbrev buffers : Buffers
buffers = record { c_phys = 0x2000; d_phys = 0x1000; e_phys = 0x3000 }

cluster-HasKernel : HasKernel cluster naturals 2
cluster-HasKernel = record {
  unit = unit;
  vl = 2;
  more_strips = 0;
  fuel = 1;
  register = λ j. 7;
  positive = omega arith;
  whole = refl;
  small = omega arith;
  granted = λ i lo. omega arith;
  enough = omega arith;
  runs = λ x w.
      fdotp_rvv-naive naturals naturals-IsExact unit x w (λ j. 7) 2 0 1 (omega arith) (omega arith)
        (λ i lo. omega arith) (omega arith);
}

buffers-AreBelow : AreBelow buffers
buffers-AreBelow = record {
  c_small = omega arith;
  d_small = omega arith;
  e_small = omega arith;
  c_there = omega arith;
  d_there = omega arith;
  e_there = omega arith;
}

layout : AreLaidOut (args_of buffers 2 3)
layout = record {
  x_fits = omega arith;
  w_fits = omega arith;
  out_fits = omega arith;
  x_apart = inl (omega arith);
  w_apart = inl (omega arith);
}

abbrev device : Device ℕ
device = record { mem = λ p. 5; x = λ j. 0; rows = λ k j. 0; pending = []; issued = 0 }

main_matvec-nopes_example :
    (o : Outcome ℕ) × (main_matvec cluster numbers 3 buffers 2 3 (λ i. 8) (λ i. 8) (λ i. 8) device
      ≡ some o)
    × (o.ret ≡ pos 0)
    × (o.nopes ≡ [])
main_matvec-nopes_example =
    main_matvec-nopes cluster numbers buffers 2 3 (λ i. 8) (λ i. 8) (λ i. 8) cluster-HasKernel
      naturals-IsExact mul_comm buffers-AreBelow device 2 ==_refl (λ i. refl)
      (fdotp_naive-IsLocal naturals) layout (omega arith) (omega arith) refl (omega arith)
      (omega arith)
