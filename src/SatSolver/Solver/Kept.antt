-- ===== src/SatSolver/Solver/Kept.antt =====
-- Every operation of the SAT solver keeps the rows of the linear problem those of their literals.
use dlinear.Base.{
  ℕ, Bool, true, false, not, ◌≡◌, refl, sym, subst, Option, some, List, [], ◌∷◌, ◌==◌, Bool-cases,
  Option-cases, inl, inr, arith,
}
use dlinear.Symbolic.Syntax.{
  Variable, Variables, Formula, Formulas, Expression, prop, neg, nil, cons,
}
use dlinear.Symbolic.Meaning.{Structure, IsOrdered}
use dlinear.Symbolic.Library.{Library}
use dlinear.PredicateAbstractor as Abstractor
use dlinear.PlaistedGreenbaum as Cnfizer
use dlinear.PredicateAbstractor.Grows.{Grows, convert-Grows}
use dlinear.Scoped.Table as Table
use dlinear.SatSolver.Linear.{Soplex, Linear}
use dlinear.SatSolver.Linear.Rows.{add_linear_literal}
use dlinear.SatSolver.Linear.Columns.{IsSoplex}
use dlinear.SatSolver.Linear.Problem.{Row, IsProblem}
use dlinear.SatSolver.Linear.Affine.{IsAffine}
use dlinear.SatSolver.Linear.Ranges.{IsDifference}
use dlinear.SatSolver.Linear.Represents.{Represents}
use dlinear.SatSolver.Linear.Adding.{add_linear_literal-Represents}
use dlinear.SatSolver.Clauses.{begin_clause}
use dlinear.SatSolver.Solver.{
  Picosat, Solver, same_id, make_sat_var, make_sat_vars, add_signed, add_literal, add_literals,
  operands_of, do_add_clause, add_clause, add_clauses, abstract_all, insert_ids, add_formula,
  add_learned_literals, add_learned_clause,
}

module _ {Q P : Type 0} {S : Structure Q} (infinity : Q) {X : Soplex Q P}
    {rows : P → List (Row Q)} where
  Represents-Grows :
      (m m' : List (Variable × Formula Q)) (l : Linear Q P)
      → Grows m m'
      → Represents S infinity X rows m l
      → Represents S infinity X rows m' l
  Represents-Grows m m' l more h = record {
    valid = h.valid;
    numbered = h.numbered;
    mirror = h.mirror;
    columns = h.columns;
    rows_of = λ v truth row e. let (f, kept, r) = h.rows_of v truth row e in (f, more v f kept, r);
  }

module _ {Q P Z : Type 0} (S : Structure Q) (infinity : Q) (X : Soplex Q P)
    (rows : P → List (Row Q)) where
  -- The rows of the solver's problem are those of their literals.
  abbrev pub IsKept : Solver Q P Z → Type 0
  IsKept s = Represents S infinity X rows s.abstractor.var_to_formula s.linear

  pub IsKept-by :
      (s t : Solver Q P Z) → s.linear ≡ t.linear → s.abstractor ≡ t.abstractor → IsKept s → IsKept t
  IsKept-by s t same same' h =
      subst (λ a. Represents S infinity X rows a.var_to_formula t.linear) same'
        (subst (Represents S infinity X rows s.abstractor.var_to_formula) same h)

module _ {Q P Z : Type 0} {S : Structure Q} (ordered : IsOrdered S) (affine : IsAffine S)
    (infinity : Q) {X : Soplex Q P} (law : IsSoplex X) {rows : P → List (Row Q)}
    (prob : IsProblem X rows) (L : Library Q) (I : Picosat Z)
    (difference : Expression Q → Expression Q → Expression Q) (expand : IsDifference S difference)
    (phase : ℕ) (one : (phase == 2) ≡ false) where
  -- What a call that succeeds has to show.
  abbrev Keeps : (Solver Q P Z → Option (Solver Q P Z)) → Type 0
  Keeps f =
      (s t : Solver Q P Z) → f s ≡ some t → IsKept S infinity X rows s → IsKept S infinity X rows t

  add_signed-Keeps :
      (v : Variable) (sign learned : Bool)
      → Keeps (add_signed S infinity X L I difference phase v sign learned)
  unfolding add_signed
  add_signed-Keeps v sign learned s t e h =
      elim (Option-cases (Table.at same_id s.to_sat_var v.id)) [
        | inl e1 ↦ absurd (ground (arith))
        | inr (i, e1) ↦ elim (Bool-cases learned) [
          | inl old ↦ IsKept-by S infinity X rows s t (ground (arith)) (ground (arith)) h
          | inr main ↦
              let theory = Abstractor.find_formula v s.abstractor.var_to_formula in
              elim (Option-cases (
                add_linear_literal S infinity X difference L.free_variables phase v sign theory
                  s.linear)) [
                    | inl e2 ↦ absurd (ground (arith))
                    | inr (l, e2) ↦
                        IsKept-by S infinity X rows (record s { linear = l }) t (ground (arith))
                          (ground (arith))
                          (add_linear_literal-Represents ordered affine infinity law prob difference
                            L.free_variables phase v sign s.abstractor.var_to_formula s.linear l
                            expand one h e2)
                  ]
        ]
      ]

  add_literal-Keeps : (f : Formula Q) → Keeps (add_literal S infinity X L I difference phase f)
  unfolding add_literal
  add_literal-Keeps (prop v) s t e h = add_signed-Keeps v true false s t e h
  add_literal-Keeps (neg (prop v)) s t e h = add_signed-Keeps v false false s t e h
  add_literal-Keeps _ s t e h = absurd (ground (arith))

  add_literals-Keeps : (fs : Formulas Q) → Keeps (add_literals S infinity X L I difference phase fs)
  unfolding add_literals
  add_literals-Keeps nil s t e h =
      IsKept-by S infinity X rows s t (ground (arith)) (ground (arith)) h
  add_literals-Keeps (cons f fs) s t e h =
      elim (Option-cases (add_literal S infinity X L I difference phase f s)) [
        | inl e1 ↦ absurd (ground (arith))
        | inr (u, e1) ↦ add_literals-Keeps fs u t (ground (arith)) (add_literal-Keeps f s u e1 h)
      ]

  do_add_clause-Keeps : (f : Formula Q) → Keeps (do_add_clause S infinity X L I difference phase f)
  unfolding do_add_clause
  do_add_clause-Keeps f s t e h =
      let fs = operands_of S infinity X L I difference phase f in
      let s1 : Solver Q P Z = record s { clauses = begin_clause s.clauses } in
      elim (Option-cases (add_literals S infinity X L I difference phase fs s1)) [
        | inl e1 ↦ absurd (ground (arith))
        | inr (u, e1) ↦
            IsKept-by S infinity X rows u t (ground (arith)) (ground (arith))
              (add_literals-Keeps fs s1 u e1 h)
      ]

  make_sat_vars-same :
      (vs : Variables) (s : Solver Q P Z)
      → ((make_sat_vars S infinity X L I vs s).linear ≡ s.linear)
        × ((make_sat_vars S infinity X L I vs s).abstractor ≡ s.abstractor)
  unfolding make_sat_vars make_sat_var
  make_sat_vars-same [] s = (refl, refl)
  make_sat_vars-same (v ∷ vs) s =
      let (a, b) = make_sat_vars-same vs (make_sat_var S infinity X L I v s) in
      elim (Option-cases (Table.at same_id s.to_sat_var v.id)) [
        | inl e ↦ ground (arith, a, b)
        | inr (i, e) ↦ ground (arith, a, b)
      ]

  add_clause-Keeps : (f : Formula Q) → Keeps (add_clause S infinity X L I difference phase f)
  unfolding add_clause
  add_clause-Keeps f s t e h =
      let (a, b) = make_sat_vars-same (L.free_variables f) s in
      let s1 = make_sat_vars S infinity X L I (L.free_variables f) s in
      do_add_clause-Keeps f s1 t e (IsKept-by S infinity X rows s s1 (sym a) (sym b) h)

  add_clauses-Keeps :
      (fs : List (Formula Q)) → Keeps (add_clauses S infinity X L I difference phase fs)
  unfolding add_clauses
  add_clauses-Keeps [] s t e h = IsKept-by S infinity X rows s t (ground (arith)) (ground (arith)) h
  add_clauses-Keeps (f ∷ fs) s t e h =
      elim (Option-cases (add_clause S infinity X L I difference phase f s)) [
        | inl e1 ↦ absurd (ground (arith))
        | inr (u, e1) ↦ add_clauses-Keeps fs u t (ground (arith)) (add_clause-Keeps f s u e1 h)
      ]

  abstract_all-Grows :
      (fs : List (Formula Q)) (a : Abstractor.State Q)
      → Grows a.var_to_formula
          (abstract_all S infinity X L I difference phase fs a).1.var_to_formula
  unfolding abstract_all
  abstract_all-Grows [] a v f e = e
  abstract_all-Grows (g ∷ fs) a v f e = abstract_all-Grows fs _ v f (convert-Grows L g a v f e)

  pub add_formula-Keeps :
      (naive : Formula Q → Formula Q) (f : Formula Q)
      → Keeps (add_formula S infinity X L I difference phase naive f)
  unfolding add_formula
  add_formula-Keeps naive f s t e h =
      let cnf = Cnfizer.convert L naive f s.abstractor.next in
      let a0 : Abstractor.State Q = record (s.abstractor) { next = cnf.next } in
      let (clauses, a) = abstract_all S infinity X L I difference phase cnf.aux a0 in
      let cs = insert_ids S infinity X L I difference phase cnf.vars s.cnf_variables in
      add_clauses-Keeps clauses (record s { abstractor = a; cnf_variables = cs }) t e
        (Represents-Grows infinity s.abstractor.var_to_formula a.var_to_formula s.linear
          (abstract_all-Grows cnf.aux a0) h)

  add_learned_literals-Keeps :
      (ls : List (Variable × Bool))
      → Keeps (add_learned_literals S infinity X L I difference phase ls)
  unfolding add_learned_literals
  add_learned_literals-Keeps [] s t e h =
      IsKept-by S infinity X rows s t (ground (arith)) (ground (arith)) h
  add_learned_literals-Keeps ((v, sign) ∷ ls) s t e h =
      elim (Option-cases (add_signed S infinity X L I difference phase v (not sign) true s)) [
        | inl e1 ↦ absurd (ground (arith))
        | inr (u, e1) ↦
            add_learned_literals-Keeps ls u t (ground (arith))
              (add_signed-Keeps v (not sign) true s u e1 h)
      ]

  pub add_learned_clause-Keeps :
      (ls : List (Variable × Bool))
      → Keeps (add_learned_clause S infinity X L I difference phase ls)
  unfolding add_learned_clause
  add_learned_clause-Keeps ls s t e h =
      elim (Option-cases (add_learned_literals S infinity X L I difference phase ls s)) [
        | inl e1 ↦ absurd (ground (arith))
        | inr (u, e1) ↦
            IsKept-by S infinity X rows u t (ground (arith)) (ground (arith))
              (add_learned_literals-Keeps ls s u e1 h)
      ]
