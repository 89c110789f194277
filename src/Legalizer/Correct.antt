-- ===== src/Legalizer/Correct.antt =====
-- The legalized code does what the original does.
use mathlib.Core.Path.{subst}
use mathlib.Core.Option.{some-injective}
use hero_tools.Prelude.{ℕ, ◌≤◌, ◌≡◌, refl, ◌∙◌, ap, Bool, some, List, [], ◌∷◌, ◌++◌, arith}
use hero_tools.Prelude.Partial.{◌>>=◌, bind-some}
use native.Mathlib.Nat.{le_trans}
use hero_tools.Ir.{
  Types, IsLlvm, Inst, load, store, addr_space_cast, ptr_to_int, int_to_ptr, bit_cast, gep, call,
  mem_intrinsic, ret_void, other,
}
use hero_tools.Ir.Meaning.{World, State, step, exec}
use hero_tools.Legalizer.{visit, visit_all}
use hero_tools.Legalizer.Agree.{Agrees}
use hero_tools.Legalizer.Runs.{IsBelow, AreBelow, Reaches, AllReach, IsVisited}
use hero_tools.Legalizer.Visits.{
  kept-IsVisited, load-IsVisited, store-IsVisited, addr_space_cast-IsVisited,
}

module _ {T : Type 0} (t : Types T) (l : IsLlvm t) (w : World) (n : ℕ) (is_support : Bool) where
  visit-IsVisited :
      (next : ℕ) (i : Inst T) {s' s : State}
      → n ≤ next
      → IsBelow n i
      → Agrees n s' s
      → Reaches t w i s
      → IsVisited t w n next (visit t is_support next i) s' (step t w i s)
  unfolding visit
  visit-IsVisited next (load r p) new below a reaches =
      load-IsVisited t l w n is_support next r p new below a reaches
  visit-IsVisited next (store p v) new below a reaches =
      store-IsVisited t l w n next p v new below a reaches
  visit-IsVisited next (addr_space_cast r p) new below a reaches =
      addr_space_cast-IsVisited t l w n next r p new below a
  visit-IsVisited next (ptr_to_int r p) new below a reaches =
      kept-IsVisited t l w n next (ptr_to_int r p) below a
  visit-IsVisited next (int_to_ptr r v) new below a reaches =
      kept-IsVisited t l w n next (int_to_ptr r v) below a
  visit-IsVisited next (bit_cast r v) new below a reaches =
      kept-IsVisited t l w n next (bit_cast r v) below a
  visit-IsVisited next (gep e r p i) new below a reaches =
      kept-IsVisited t l w n next (gep e r p i) below a
  visit-IsVisited next (call r f vs) new below a reaches =
      kept-IsVisited t l w n next (call r f vs) below a
  visit-IsVisited next (mem_intrinsic k d v m) new below a reaches =
      kept-IsVisited t l w n next (mem_intrinsic k d v m) below a
  visit-IsVisited next ret_void new below a reaches = kept-IsVisited t l w n next ret_void below a
  visit-IsVisited next (other o r vs) new below a reaches =
      kept-IsVisited t l w n next (other o r vs) below a

  exec-some :
      (i : Inst T) (is : List (Inst T)) (s u : State)
      → exec t w (i ∷ is) s ≡ some u
      → (s1 : State) × (step t w i s ≡ some s1) × (exec t w is s1 ≡ some u)
  unfolding exec
  exec-some i is s u e = bind-some (step t w i s) (exec t w is) u e

  exec-nil : (s u : State) → exec t w [] s ≡ some u → s ≡ u
  unfolding exec
  exec-nil s u e = some-injective s u e

  exec-none : (s : State) → exec t w [] s ≡ some s
  unfolding exec
  exec-none s = refl

  exec-append :
      (is js : List (Inst T)) (s u : State)
      → exec t w is s ≡ some u
      → exec t w (is ++ js) s ≡ exec t w js u
  unfolding exec
  exec-append [] js s u e = ap (λ o. o >>= exec t w js) e
  exec-append (i ∷ is) js s u e =
      let (s1, first, rest) = bind-some (step t w i s) (exec t w is) u e in
      rw first (exec-append is js s1 u rest)

  -- From states that agree.
  legalized :
      (next : ℕ) (is : List (Inst T)) (s' s u : State)
      → n ≤ next
      → AreBelow n is
      → Agrees n s' s
      → AllReach t w is s
      → exec t w is s ≡ some u
      → (code : List (Inst T)) × (visit_all t is_support next is ≡ some code)
        × (u' : State) × (exec t w code s' ≡ some u')
        × Agrees n u' u
  unfolding visit_all
  legalized next [] s' s u new below a reach runs =
      ([], refl, s', exec-none s', subst (Agrees n s') (exec-nil s u runs) a)
  legalized next (i ∷ is) s' s u new (lo, below) a (reaches, all) runs =
      let (s1, first, rest) = exec-some i is s u runs in
      let (code, next', visited, more, follows) = visit-IsVisited next i new lo a reaches in
      let (s1', ran, agrees) = follows s1 first in
      let reach : AllReach t w is s1 = rw first at all in
      let (codes, visited_all, u', ran_all, agrees_all) =
        legalized next' is s1' s1 u (le_trans new more) below agrees reach rest in
      (
        code ++ codes,
        rw (visited, visited_all) refl,
        u',
        exec-append code codes s' s1' ran ∙ ran_all,
        agrees_all,
      )

  -- The pass turns the instructions into code without a failed assertion, and when the original
  -- run comes to an end the run of the new code does, with the same value under every name of the
  -- original and the same memory and `mstatus`. The names of the original are below `n`; every
  -- load and store of a host's address in the original run is by a pointer, of a scalar of 8, 16,
  -- 32 or 64 bits, and below 2^32, and the memory's cells are bytes there.
  pub visit_all-exec :
      (is : List (Inst T)) (s u : State)
      → AreBelow n is
      → AllReach t w is s
      → exec t w is s ≡ some u
      → (code : List (Inst T)) × (visit_all t is_support n is ≡ some code)
        × (u' : State) × (exec t w code s ≡ some u')
        × Agrees n u' u
  visit_all-exec is s u below reach runs =
      legalized n is s s u (omega arith) below
        (record { env = λ k lo. refl; core = record { memory = refl; mstatus = refl } }) reach runs
