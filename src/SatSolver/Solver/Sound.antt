-- ===== src/SatSolver/Solver/Sound.antt =====
-- The linear problem that `CheckSat` leaves does not exclude a point of its theory model.
use dlinear.Base.{
  ℕ, Bool, ◌≡◌, refl, sym, ◌∙◌, subst, some, List, [], ◌∷◌, All, if◌then◌else◌, Option-cases, inl,
  inr, arith, ℤ, abs_ℤ,
}
use dlinear.Symbolic.Syntax.{Variable, Formula}
use dlinear.Symbolic.Meaning.{Structure, IsOrdered, Env, holds}
use dlinear.Symbolic.Library.{Library}
use dlinear.PredicateAbstractor.{find_formula}
use dlinear.Scoped.Table as Table
use dlinear.Box.{Box}
use dlinear.SatSolver.Clauses.{get_main_active_literals}
use dlinear.SatSolver.Linear.{
  Soplex, Linear, enable_linear_literal, reset_columns, reset_linear_problem,
}
use dlinear.SatSolver.Linear.Bounds.{WithinBounds, IsInjective}
use dlinear.SatSolver.Linear.Enable.{enable_linear_literal-sound}
use dlinear.SatSolver.Linear.Staying.{enable_linear_literal-to_col}
use dlinear.SatSolver.Solver.{
  Picosat, Solver, collect, check_sat, Answer, satisfiable, unsatisfiable, unknown, is_positive,
  same_id,
}

module _ {Q P Z : Type 0} (S : Structure Q) where
  -- The point satisfies the theory literal.
  abbrev pub Agrees : Env Q → Solver Q P Z → Variable × Bool → Type 0
  Agrees env s (v, sign) =
      (f : Formula Q) → find_formula v s.abstractor.var_to_formula ≡ some f → holds S env f ≡ sign

module _ {Q P Z : Type 0} {S : Structure Q} (ordered : IsOrdered S) (infinity : Q) (X : Soplex Q P)
    (L : Library Q) (I : Picosat Z) where
  collect-sound :
      (s : Solver Q P Z) (is : List ℤ) (l l' : Linear Q P) (bools theory : List (Variable × Bool))
      (env : Env Q)
      → IsInjective l.to_col
      → collect S infinity X L I s is l ≡ some ((bools, theory), l')
      → All (Agrees S env s) theory
      → WithinBounds S env l
      → WithinBounds S env l'
  unfolding collect
  collect-sound s [] l l' bools theory env injective h agrees w =
      let same : l ≡ l' = ground (arith) in subst (WithinBounds S env) same w
  collect-sound s (i ∷ is) l l' bools theory env injective h agrees w =
      elim (Option-cases (Table.at same_id s.to_sym_var (abs_ℤ i))) [
        | inl e ↦ collect-sound s is l l' bools theory env injective (ground (arith)) agrees w
        | inr (v, e) ↦ elim (Option-cases (find_formula v s.abstractor.var_to_formula)) [
          | inl e1 ↦ elim (Option-cases (collect S infinity X L I s is l)) [
            | inl e2 ↦ ground (arith)
            | inr (((bools1, theory1), l2), e2) ↦
                let same : theory1 ≡ theory = ground (arith) in
                let same' : l2 ≡ l' = ground (arith) in
                subst (WithinBounds S env) same' (
                  collect-sound s is l l2 bools1 theory1 env injective e2
                    (subst (All (Agrees S env s)) (sym same) agrees) w)
          ]
          | inr (f, e1) ↦
              elim (Option-cases (
                enable_linear_literal S infinity X v (is_positive S infinity X L I i) (some f) l)) [
                  | inl e2 ↦ ground (arith)
                  | inr (l1, e2) ↦ elim (Option-cases (collect S infinity X L I s is l1)) [
                    | inl e3 ↦ ground (arith)
                    | inr (((bools1, theory1), l2), e3) ↦
                        let sign = is_positive S infinity X L I i in
                        let same : (v, sign) ∷ theory1 ≡ theory = ground (arith) in
                        let same' : l2 ≡ l' = ground (arith) in
                        let agrees' = subst (All (Agrees S env s)) (sym same) agrees in
                        let moved =
                          enable_linear_literal-to_col ordered infinity X v (some f) sign l l1 e2 in
                        let w1 =
                          enable_linear_literal-sound ordered infinity X v (some f) sign l l1 env
                            injective (λ g eg. agrees'.0 g (e1 ∙ eg)) e2 w in
                        subst (WithinBounds S env) same' (
                          collect-sound s is l1 l2 bools1 theory1 env
                            (subst IsInjective (sym moved) injective) e3 agrees'.1 w1)
                  ]
                ]
        ]
      ]

  reset_columns-to_col :
      (box : Box Q) (m : List (ℕ × Variable)) (l : Linear Q P)
      → (reset_columns S infinity X box m l).to_col ≡ l.to_col
  unfolding reset_columns
  reset_columns-to_col box [] l = refl
  reset_columns-to_col box ((col, v) ∷ m) l = reset_columns-to_col box m _

  pub reset-to_col :
      (box : Box Q) (l : Linear Q P) → (reset_linear_problem S infinity X box l).to_col ≡ l.to_col
  unfolding reset_linear_problem
  reset-to_col box l = reset_columns-to_col box l.from_col _

  -- The branches of the answer.
  answered :
      (box : Box Q) (s s' : Solver Q P Z) (bools theory : List (Variable × Bool)) (env : Env Q)
      (answer : Answer)
      → IsInjective s.linear.to_col
      → answer ≡ (I.sat s.sat).0
      → check_sat S infinity X L I box s ≡ some (some (bools, theory), s')
      → All (Agrees S env s) theory
      → WithinBounds S env (reset_linear_problem S infinity X box s.linear)
      → WithinBounds S env s'.linear
  unfolding check_sat
  answered box s s' bools theory env unknown injective e h agrees w = ground (arith)
  answered box s s' bools theory env unsatisfiable injective e h agrees w = ground (arith)
  answered box s s' bools theory env satisfiable injective e h agrees w =
      let sat = (I.sat s.sat).1 in
      let s1 : Solver Q P Z = record s { sat = sat } in
      let value = if s.has_picosat_pop_used then I.deref sat else I.deref_partial sat in
      let lits = get_main_active_literals s.clauses value (I.variables sat) in
      let l = reset_linear_problem S infinity X box s.linear in
      elim (Option-cases (collect S infinity X L I s1 lits l)) [
        | inl e1 ↦ ground (arith)
        | inr (((bools1, theory1), l1), e1) ↦
            let same : theory1 ≡ theory = ground (arith) in
            let same' : l1 ≡ s'.linear = ground (arith) in
            subst (WithinBounds S env) same' (
              collect-sound s1 lits l l1 bools1 theory1 env
                (subst IsInjective (sym (reset-to_col box s.linear)) injective) e1
                (subst (All (Agrees S env s)) (sym same) agrees) w)
      ]

  -- When `CheckSat` returns a model, a point that the bounds taken from the box admit, and that
  -- satisfies the theory literals of the model, lies within the bounds of the linear problem that
  -- is left, provided that different variables have different columns and the numbers are ordered.
  pub check_sat-sound :
      (box : Box Q) (s s' : Solver Q P Z) (bools theory : List (Variable × Bool)) (env : Env Q)
      → IsInjective s.linear.to_col
      → check_sat S infinity X L I box s ≡ some (some (bools, theory), s')
      → All (Agrees S env s) theory
      → WithinBounds S env (reset_linear_problem S infinity X box s.linear)
      → WithinBounds S env s'.linear
  unfolding check_sat reset_linear_problem
  check_sat-sound box s s' bools theory env injective h agrees w =
      answered box s s' bools theory env (I.sat s.sat).0 injective refl h agrees w
