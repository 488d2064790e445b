-- ===== src/SatSolver/Solver/Checked.antt =====
-- `CheckSat` of the SAT solver: what it leaves of the linear problem.
use dlinear.Base.{
  ℕ, Bool, true, ◌≡◌, ◌⊎◌, refl, sym, ap, ◌∙◌, subst, Option, none, some, List, [], ◌∷◌, All,
  All-imp, if◌then◌else◌, Option-cases, inl, inr, arith, ℤ, abs_ℤ,
}
use dlinear.Symbolic.Syntax.{Variable, Formula}
use dlinear.Symbolic.Meaning.{Structure, IsOrdered, Env}
use dlinear.Symbolic.Library.{Library}
use dlinear.PredicateAbstractor.{find_formula}
use dlinear.Scoped.Table as Table
use dlinear.Box.{Box}
use dlinear.SatSolver.Linear.{Soplex, Linear, enable_linear_literal, reset_linear_problem}
use dlinear.SatSolver.Linear.Enable.{relaxed}
use dlinear.SatSolver.Linear.Staying.{enable_linear_literal-to_col}
use dlinear.SatSolver.Linear.Problem.{Row, IsProblem, satisfies_rows}
use dlinear.SatSolver.Linear.Affine.{Follows}
use dlinear.SatSolver.Linear.Represents.{Represents}
use dlinear.SatSolver.Linear.Enabling.{
  enable_linear_literal-Represents, enable_linear_literal-satisfies,
}
use dlinear.SatSolver.Linear.Resetting.{reset-Represents, reset-satisfies}
use dlinear.SatSolver.Clauses.{get_main_active_literals}
use dlinear.SatSolver.Solver.{
  Picosat, Solver, Model, same_id, is_positive, collect, check_sat, Answer, satisfiable,
  unsatisfiable, unknown,
}
use dlinear.SatSolver.Solver.Sound.{reset-to_col}
use dlinear.SatSolver.Solver.Kept.{IsKept, IsKept-by}

module _ {Q P Z : Type 0} (S : Structure Q) where
  -- The point satisfies the theory literal, or its equality where it is strict.
  abbrev pub Relaxes : Env Q → Solver Q P Z → Variable × Bool → Type 0
  Relaxes env s (v, sign) =
      (f : Formula Q)
      → find_formula v s.abstractor.var_to_formula ≡ some f
      → relaxed S env f sign ≡ true

module _ {Q P Z : Type 0} {S : Structure Q} (ordered : IsOrdered S) (infinity : Q) {X : Soplex Q P}
    {rows : P → List (Row Q)} (prob : IsProblem X rows) (L : Library Q) (I : Picosat Z) where
  -- What the loop leaves: the rows are still those of their literals, and a point that satisfies
  -- the theory literals of the model satisfies the rows that they enabled.
  pub record Left (s : Solver Q P Z) (l l' : Linear Q P) (theory : List (Variable × Bool))
      : Type 0 where
    pub represents : Represents S infinity X rows s.abstractor.var_to_formula l'
    pub same_cols : l'.to_col ≡ l.to_col
    pub satisfied :
        (env : Env Q) (y : ℕ → Q)
        → Follows env y l.to_col
        → All (Relaxes S env s) theory
        → satisfies_rows S infinity y (rows l.prob) ≡ true
        → satisfies_rows S infinity y (rows l'.prob) ≡ true

  -- The loop reads the abstractor of the state only.
  again :
      (s s1 : Solver Q P Z) (l l' : Linear Q P) (theory : List (Variable × Bool))
      → s1.abstractor ≡ s.abstractor
      → Left s1 l l' theory
      → Left s l l' theory
  again s s1 l l' theory same left = record {
    represents = subst (λ a. Represents S infinity X rows a.var_to_formula l') same left.represents;
    same_cols = left.same_cols;
    satisfied = λ env y follows agrees w.
        left.satisfied env y follows
          (All-imp (λ v k f e. k f (ap (λ a. find_formula v.0 a.var_to_formula) (sym same) ∙ e))
            theory agrees)
          w;
  }

  -- One literal is enabled before the others.
  step :
      (s : Solver Q P Z) (v : Variable) (f : Formula Q) (sign : Bool) (l l1 l2 : Linear Q P)
      (theory : List (Variable × Bool))
      → Represents S infinity X rows s.abstractor.var_to_formula l
      → find_formula v s.abstractor.var_to_formula ≡ some f
      → enable_linear_literal S infinity X v sign (some f) l ≡ some l1
      → Left s l1 l2 theory
      → Left s l l2 ((v, sign) ∷ theory)
  step s v f sign l l1 l2 theory h kept e rest =
      let cols = enable_linear_literal-to_col ordered infinity X v (some f) sign l l1 e in
      record {
        represents = rest.represents;
        same_cols = rest.same_cols ∙ cols;
        satisfied = λ env y follows agrees w.
            rest.satisfied env y (subst (Follows env y) (sym cols) follows) agrees.1 (
              enable_linear_literal-satisfies S infinity prob s.abstractor.var_to_formula v sign l
                l1 env y h follows agrees.0
                (ap (λ t. enable_linear_literal S infinity X v sign t l) kept ∙ e) w);
      }

  collect-Left :
      (s : Solver Q P Z) (is : List ℤ) (l l' : Linear Q P) (bools theory : List (Variable × Bool))
      → Represents S infinity X rows s.abstractor.var_to_formula l
      → collect S infinity X L I s is l ≡ some ((bools, theory), l')
      → Left s l l' theory
  unfolding collect
  collect-Left s [] l l' bools theory h e =
      let same : l ≡ l' = ground (arith) in
      subst (λ k. Left s l k theory) same
        (record { represents = h; same_cols = refl; satisfied = λ env y f a w. w })
  collect-Left s (i ∷ is) l l' bools theory h e =
      elim (Option-cases (Table.at same_id s.to_sym_var (abs_ℤ i))) [
        | inl e1 ↦ collect-Left s is l l' bools theory h (ground (arith))
        | inr (v, e1) ↦ elim (Option-cases (find_formula v s.abstractor.var_to_formula)) [
          | inl e2 ↦ elim (Option-cases (collect S infinity X L I s is l)) [
            | inl e3 ↦ absurd (ground (arith))
            | inr (((bools1, theory1), l2), e3) ↦
                let same : theory1 ≡ theory = ground (arith) in
                let same' : l2 ≡ l' = ground (arith) in
                subst (Left s l l') same (
                  subst (λ k. Left s l k theory1) same'
                    (collect-Left s is l l2 bools1 theory1 h e3))
          ]
          | inr (f, e2) ↦
              let sign = is_positive S infinity X L I i in
              elim (Option-cases (enable_linear_literal S infinity X v sign (some f) l)) [
                | inl e3 ↦ absurd (ground (arith))
                | inr (l1, e3) ↦ elim (Option-cases (collect S infinity X L I s is l1)) [
                  | inl e4 ↦ absurd (ground (arith))
                  | inr (((bools1, theory1), l2), e4) ↦
                      let same : (v, sign) ∷ theory1 ≡ theory = ground (arith) in
                      let same' : l2 ≡ l' = ground (arith) in
                      subst (Left s l l') same (
                        subst (λ k. Left s l k ((v, sign) ∷ theory1)) same'
                          (step s v f sign l l1 l2 theory1 h e2 e3 (
                            collect-Left s is l1 l2 bools1 theory1
                              (enable_linear_literal-Represents S infinity prob
                                s.abstractor.var_to_formula v sign (some f) l l1 h e3)
                              e4)))
                ]
              ]
        ]
      ]

  -- The branches of the answer.
  answered :
      (box : Box Q) (s t : Solver Q P Z) (r : Option Model) (answer : Answer)
      → answer ≡ (I.sat s.sat).0
      → check_sat S infinity X L I box s ≡ some (r, t)
      → IsKept S infinity X rows s
      → (t.abstractor ≡ s.abstractor)
        × ((r ≡ none) × (t.linear ≡ s.linear)
            ⊎ ((m : Model) × (r ≡ some m)
                × Left s (reset_linear_problem S infinity X box s.linear) t.linear m.1))
  unfolding check_sat
  answered box s t r unknown e h k = absurd (ground (arith))
  answered box s t r unsatisfiable e h k = (ground (arith), inl (ground (arith), ground (arith)))
  answered box s t r satisfiable e h k =
      let sat = (I.sat s.sat).1 in
      let s1 : Solver Q P Z = record s { sat = sat } in
      let value = if s.has_picosat_pop_used then I.deref sat else I.deref_partial sat in
      let lits = get_main_active_literals s.clauses value (I.variables sat) in
      let l = reset_linear_problem S infinity X box s.linear in
      elim (Option-cases (collect S infinity X L I s1 lits l)) [
        | inl e1 ↦ absurd (ground (arith))
        | inr (((bools, theory), l1), e1) ↦
            let left =
              collect-Left s1 lits l l1 bools theory
                (reset-Represents ordered infinity prob s.abstractor.var_to_formula box s.linear k)
                e1 in
            let same : l1 ≡ t.linear = ground (arith) in
            (
              ground (arith),
              inr (
                (bools, theory),
                ground (arith),
                subst (λ l2. Left s l l2 theory) same (again s s1 l l1 theory refl left),
              ),
            )
      ]

  pub check_sat-Keeps :
      (box : Box Q) (s t : Solver Q P Z) (r : Option Model)
      → check_sat S infinity X L I box s ≡ some (r, t)
      → IsKept S infinity X rows s
      → IsKept S infinity X rows t
  check_sat-Keeps box s t r h k =
      let (same, cases) = answered box s t r (I.sat s.sat).0 refl h k in
      elim cases [
        | inl (_, lin) ↦ IsKept-by S infinity X rows s t (sym lin) (sym same) k
        | inr (m, _, left) ↦
            subst (λ a. Represents S infinity X rows a.var_to_formula t.linear) (sym same)
              left.represents
      ]

  -- A point that satisfies the theory literals of the model satisfies the rows of the problem that
  -- is left.
  pub check_sat-rows :
      (box : Box Q) (s t : Solver Q P Z) (bools theory : List (Variable × Bool)) (env : Env Q)
      (y : ℕ → Q)
      → check_sat S infinity X L I box s ≡ some (some (bools, theory), t)
      → IsKept S infinity X rows s
      → Follows env y s.linear.to_col
      → All (Relaxes S env s) theory
      → satisfies_rows S infinity y (rows t.linear.prob) ≡ true
  check_sat-rows box s t bools theory env y h k follows agrees =
      let l = reset_linear_problem S infinity X box s.linear in
      elim (answered box s t (some (bools, theory)) (I.sat s.sat).0 refl h k).1 [
        | inl (e, _) ↦ absurd (cc)
        | inr (m, e, left) ↦
            let same : m.1 ≡ theory = ground (arith) in
            left.satisfied env y
              (subst (Follows env y) (sym (reset-to_col ordered infinity X L I box s.linear))
                follows)
              (subst (All (Relaxes S env s)) (sym same) agrees)
              (reset-satisfies ordered infinity prob box s.linear y)
      ]

  -- No column moves.
  pub check_sat-to_col :
      (box : Box Q) (s t : Solver Q P Z) (m : Model)
      → check_sat S infinity X L I box s ≡ some (some m, t)
      → IsKept S infinity X rows s
      → t.linear.to_col ≡ s.linear.to_col
  check_sat-to_col box s t m h k = elim (answered box s t (some m) (I.sat s.sat).0 refl h k).1 [
    | inl (e, _) ↦ absurd (cc)
    | inr (m', e, left) ↦ left.same_cols ∙ reset-to_col ordered infinity X L I box s.linear
  ]
