-- ===== src/SatSolver/Solver/Enforced.antt =====
-- After `CheckSat` the linear problem holds every theory literal of the model.
use dlinear.Base.{
  ℕ, Bool, ◌≡◌, refl, ap, ◌∙◌, subst, some, List, [], ◌∷◌, All, All-imp, if◌then◌else◌,
  Option-cases, inl, inr, arith, ℤ, abs_ℤ,
}
use dlinear.Symbolic.Syntax.{Variable, Formula}
use dlinear.Symbolic.Meaning.{Structure, IsOrdered}
use dlinear.Symbolic.Library.{Library}
use dlinear.PredicateAbstractor.{find_formula}
use dlinear.Scoped.Table as Table
use dlinear.Box.{Box}
use dlinear.SatSolver.Linear.{
  Soplex, Linear, find_row, enable_linear_literal, reset_columns, reset_linear_problem,
}
use dlinear.SatSolver.Linear.Problem.{Row, IsProblem}
use dlinear.SatSolver.Linear.Represents.{Represents}
use dlinear.SatSolver.Linear.Enabling.{enable_linear_literal-Represents}
use dlinear.SatSolver.Linear.Resetting.{reset-Represents}
use dlinear.SatSolver.Linear.OnRow.{Covered}
use dlinear.SatSolver.Linear.Enforcing.{
  Holds, Holds-kept, enable_linear_literal-Holds, enable_linear_literal-to_row,
}
use dlinear.SatSolver.Clauses.{get_main_active_literals}
use dlinear.SatSolver.Solver.{
  Picosat, Solver, same_id, is_positive, collect, check_sat, Answer, satisfiable, unsatisfiable,
  unknown,
}
use dlinear.SatSolver.Solver.Kept.{IsKept}

module _ {Q P Z : Type 0} {S : Structure Q} (ordered : IsOrdered S) (infinity : Q) {X : Soplex Q P}
    {rows : P → List (Row Q)} (prob : IsProblem X rows) (L : Library Q) (I : Picosat Z) where
  -- The first problem has a row or a bound for the literal, and the second holds it.
  abbrev HoldsLiteral : Solver Q P Z → Linear Q P → Linear Q P → Variable × Bool → Type 0
  HoldsLiteral s l l' (v, sign) =
      (f : Formula Q)
      → find_formula v s.abstractor.var_to_formula ≡ some f
      → Covered S infinity X rows l v sign f
      → Holds ordered infinity prob s.abstractor.var_to_formula l' f sign

  Covered-to_row :
      (l l' : Linear Q P) (v : Variable) (sign : Bool) (f : Formula Q)
      → l'.to_row ≡ l.to_row
      → Covered S infinity X rows l v sign f
      → Covered S infinity X rows l' v sign f
  Covered-to_row l l' v sign f same (inl (row, e)) = inl (row, ap (find_row v.id sign) same ∙ e)
  Covered-to_row l l' v sign f same (inr other) = inr other

  -- One literal is enabled before the others.
  first :
      (s : Solver Q P Z) (v : Variable) (f : Formula Q) (sign : Bool) (l l1 l' : Linear Q P)
      (theory theory1 : List (Variable × Bool))
      → (v, sign) ∷ theory1 ≡ theory
      → Represents S infinity X rows s.abstractor.var_to_formula l
      → find_formula v s.abstractor.var_to_formula ≡ some f
      → enable_linear_literal S infinity X v sign (find_formula v s.abstractor.var_to_formula) l
        ≡ some l1
      → All (HoldsLiteral s l1 l') theory1
      → ((g : Formula Q) (truth : Bool)
          → Holds ordered infinity prob s.abstractor.var_to_formula l1 g truth
          → Holds ordered infinity prob s.abstractor.var_to_formula l' g truth)
      → All (HoldsLiteral s l l') theory
        × ((g : Formula Q) (truth : Bool)
            → Holds ordered infinity prob s.abstractor.var_to_formula l g truth
            → Holds ordered infinity prob s.abstractor.var_to_formula l' g truth)
  first s v f sign l l1 l' theory theory1 same h kept e rest later =
      let formulas = s.abstractor.var_to_formula in
      let moved = enable_linear_literal-to_row ordered infinity prob formulas v sign l l1 h e in
      (
        subst (All (HoldsLiteral s l l')) same (
          (λ g kept' covered. later g sign (
              enable_linear_literal-Holds ordered infinity prob formulas v sign l l1 g h kept'
                covered e)),
          All-imp (λ (w, t) k g kept' covered. k g kept' (Covered-to_row l l1 w t g moved covered))
              theory1 rest,
        ),
        λ g truth w.
            later g truth (Holds-kept ordered infinity prob formulas v sign truth l l1 g h e w),
      )

  collect-Holds :
      (s : Solver Q P Z) (is : List ℤ) (l l' : Linear Q P) (bools theory : List (Variable × Bool))
      → Represents S infinity X rows s.abstractor.var_to_formula l
      → collect S infinity X L I s is l ≡ some ((bools, theory), l')
      → All (HoldsLiteral s l l') theory
        × ((f : Formula Q) (truth : Bool)
            → Holds ordered infinity prob s.abstractor.var_to_formula l f truth
            → Holds ordered infinity prob s.abstractor.var_to_formula l' f truth)
  unfolding collect
  collect-Holds s [] l l' bools theory h e =
      let same : l ≡ l' = ground (arith) in
      let no_theory : ◌≡◌ {A = List (Variable × Bool)} [] theory = ground (arith) in
      (
        subst (All (HoldsLiteral s l l')) no_theory tt,
        λ f truth w.
            subst (λ k. Holds ordered infinity prob s.abstractor.var_to_formula k f truth) same w,
      )
  collect-Holds s (i ∷ is) l l' bools theory h e =
      elim (Option-cases (Table.at same_id s.to_sym_var (abs_ℤ i))) [
        | inl e1 ↦ collect-Holds s is l l' bools theory h (ground (arith))
        | inr (v, e1) ↦ elim (Option-cases (find_formula v s.abstractor.var_to_formula)) [
          | inl e2 ↦ elim (Option-cases (collect S infinity X L I s is l)) [
            | inl e3 ↦ absurd (ground (arith))
            | inr (((bools1, theory1), l2), e3) ↦
                collect-Holds s is l l' bools1 theory h (ground (arith))
          ]
          | inr (f, e2) ↦
              let sign = is_positive S infinity X L I i in
              elim (Option-cases (enable_linear_literal S infinity X v sign (some f) l)) [
                | inl e3 ↦ absurd (ground (arith))
                | inr (l1, e3) ↦ elim (Option-cases (collect S infinity X L I s is l1)) [
                  | inl e4 ↦ absurd (ground (arith))
                  | inr (((bools1, theory1), l2), e4) ↦
                      let h1 =
                        enable_linear_literal-Represents S infinity prob s.abstractor.var_to_formula
                          v sign (some f) l l1 h e3 in
                      let e5 : enable_linear_literal S infinity X v sign
                            (find_formula v s.abstractor.var_to_formula) l
                          ≡ some l1 =
                        ap (λ t. enable_linear_literal S infinity X v sign t l) e2 ∙ e3 in
                      let e6 : collect S infinity X L I s is l1 ≡ some ((bools1, theory1), l') =
                        ground (arith) in
                      let same : (v, sign) ∷ theory1 ≡ theory = ground (arith) in
                      let (rest, later) = collect-Holds s is l1 l' bools1 theory1 h1 e6 in
                      first s v f sign l l1 l' theory theory1 same h e2 e5 rest later
                ]
              ]
        ]
      ]

  reset_columns-to_row :
      (box : Box Q) (m : List (ℕ × Variable)) (l : Linear Q P)
      → (reset_columns S infinity X box m l).to_row ≡ l.to_row
  unfolding reset_columns
  reset_columns-to_row box [] l = refl
  reset_columns-to_row box ((col, v) ∷ m) l = reset_columns-to_row box m _

  -- The branches of the answer.
  answered :
      (box : Box Q) (s t : Solver Q P Z) (bools theory : List (Variable × Bool)) (answer : Answer)
      → answer ≡ (I.sat s.sat).0
      → check_sat S infinity X L I box s ≡ some (some (bools, theory), t)
      → IsKept S infinity X rows s
      → All (HoldsLiteral s s.linear t.linear) theory
  unfolding check_sat reset_linear_problem
  answered box s t bools theory unknown e h k = absurd (ground (arith))
  answered box s t bools theory unsatisfiable e h k = absurd (ground (arith))
  answered box s t bools theory satisfiable e h k =
      let sat = (I.sat s.sat).1 in
      let s1 : Solver Q P Z = record s { sat = sat } in
      let value = if s.has_picosat_pop_used then I.deref sat else I.deref_partial sat in
      let lits = get_main_active_literals s.clauses value (I.variables sat) in
      let l = reset_linear_problem S infinity X box s.linear in
      elim (Option-cases (collect S infinity X L I s1 lits l)) [
        | inl e1 ↦ absurd (ground (arith))
        | inr (((bools1, theory1), l1), e1) ↦
            let same : theory1 ≡ theory = ground (arith) in
            let same' : l1 ≡ t.linear = ground (arith) in
            let (held, _) =
              collect-Holds s1 lits l l1 bools1 theory1
                (reset-Represents ordered infinity prob s.abstractor.var_to_formula box s.linear k)
                e1 in
            subst (All (HoldsLiteral s s.linear t.linear)) same (
              subst (λ l2. All (HoldsLiteral s s.linear l2) theory1) same'
                (All-imp
                  (λ (v, sign) held1 f kept covered. held1 f kept (
                    Covered-to_row s.linear l v sign f
                      (reset_columns-to_row box s.linear.from_col _) covered))
                  theory1 held))
      ]

  -- Every theory literal of the model that has a row or a bound is held by the problem that is left.
  pub check_sat-Holds :
      (box : Box Q) (s t : Solver Q P Z) (bools theory : List (Variable × Bool))
      → check_sat S infinity X L I box s ≡ some (some (bools, theory), t)
      → IsKept S infinity X rows s
      → All (HoldsLiteral s s.linear t.linear) theory
  check_sat-Holds box s t bools theory h k = answered box s t bools theory (I.sat s.sat).0 refl h k
