-- ===== src/Context/Shared.antt =====
-- The linear problem that both solvers work on: the theory solver leaves its rows and columns.
use dlinear.Base.{
  ℕ, true, false, ◌≡◌, refl, ◌∙◌, subst, some, List, ◌==◌, Bool-cases, Option-cases, inl, inr,
  arith,
}
use dlinear.Symbolic.Syntax.{Variable}
use dlinear.Symbolic.Meaning.{Structure}
use dlinear.Literal.{Literals}
use dlinear.Box.Intervals.{Interval}
use dlinear.Box.{Box}
use dlinear.SatSolver.Linear.{Soplex}
use dlinear.SatSolver.Linear.Problem.{Row}
use dlinear.SatSolver.Linear.SameRows.{SameRows, SameRows-equal}
use dlinear.TheorySolver.{
  Optimizer, TheorySolver, Verdict, delta_sat, unsat, check_sat as check_theory, solve, add_missing,
  check_bounds, judge, copy_solution, zeros,
}

-- SoPlex keeps the rows and columns of a problem whose bounds are changed and that is solved; both
-- interfaces are those of one problem.
pub record IsShared {Q P : Type 0} (X : Soplex Q P) (O : Optimizer Q P) (rows : P → List (Row Q))
    : Type 0 where
  pub same_cols : (p : P) → O.num_cols p ≡ X.num_cols p
  pub same_rows : (p : P) → O.num_rows p ≡ X.num_rows p
  pub cols-change_lower : (xs : List Q) (p : P) → X.num_cols (O.change_lower xs p) ≡ X.num_cols p
  pub cols-change_upper : (xs : List Q) (p : P) → X.num_cols (O.change_upper xs p) ≡ X.num_cols p
  pub cols-optimize : (p : P) → X.num_cols (O.optimize p).1 ≡ X.num_cols p
  pub rows-change_lower : (xs : List Q) (p : P) → rows (O.change_lower xs p) ≡ rows p
  pub rows-change_upper : (xs : List Q) (p : P) → rows (O.change_upper xs p) ≡ rows p
  pub rows-optimize : (p : P) → rows (O.optimize p).1 ≡ rows p

module _ {Q P : Type 0} (S : Structure Q) (infinity : Q) (entire : Interval Q) {X : Soplex Q P}
    {O : Optimizer Q P} {rows : P → List (Row Q)} (shared : IsShared X O rows) (phase : ℕ) where
  bounded-same :
      (prob : P) (lower upper : List Q)
      → let p = O.change_upper upper (O.change_lower lower prob) in
        SameRows X rows prob (O.optimize p).1
  bounded-same prob lower upper =
      let q = O.change_lower lower prob in
      let p = O.change_upper upper q in
      SameRows-equal X rows prob (O.optimize p).1
        (shared.cols-optimize p
          ∙ shared.cols-change_upper upper q
          ∙ shared.cols-change_lower lower prob)
        (shared.rows-optimize p
          ∙ shared.rows-change_upper upper q
          ∙ shared.rows-change_lower lower prob)

  solve-prob :
      (ls : Literals) (prob p' : P) (m : List (ℕ × Variable)) (st st' : TheorySolver Q)
      (r : Verdict)
      → solve S infinity entire O phase ls prob m st ≡ some (r, p', st')
      → (O.optimize prob).1 ≡ p'
  unfolding solve
  solve-prob ls prob p' m st st' r h =
      let (status, p) = O.optimize prob in
      let (have, x) = O.get_primal (zeros S infinity entire (O.num_cols prob)) p in
      elim (Option-cases (judge S infinity entire phase status (O.num_cols prob) (O.get_obj p) x)) [
        | inl e ↦ ground (arith)
        | inr (unsat, e) ↦ ground (arith)
        | inr (delta_sat, e) ↦ elim (Bool-cases have) [
          | inr lost ↦ ground (arith)
          | inl found ↦ elim (Option-cases (copy_solution S infinity entire x m st.model)) [
            | inl e' ↦ ground (arith)
            | inr (model, e') ↦ ground (arith)
          ]
        ]
      ]

  -- `CheckSat` of the theory solver leaves the rows and columns.
  pub check_theory-same :
      (box : Box Q) (ls : Literals) (prob p' : P) (lower upper : List Q) (m : List (ℕ × Variable))
      (st st' : TheorySolver Q) (r : Verdict)
      → check_theory S infinity entire O phase box ls prob lower upper m st ≡ some (r, p', st')
      → SameRows X rows prob p'
  unfolding check_theory
  check_theory-same box ls prob p' lower upper m st st' r h =
      let stay = SameRows-equal X rows prob prob refl refl in
      let none_left = O.num_rows prob == 0 in
      elim (Option-cases (add_missing S infinity entire m box)) [
        | inl e ↦ absurd (ground (arith))
        | inr (model0, e) ↦
            elim (Option-cases (check_bounds S infinity entire lower upper none_left m model0)) [
              | inl e' ↦ absurd (ground (arith))
              | inr ((false, model), e') ↦ subst (SameRows X rows prob) (ground (arith)) stay
              | inr ((true, model), e') ↦ elim (Bool-cases none_left) [
                | inl empty ↦ subst (SameRows X rows prob) (ground (arith)) stay
                | inr full ↦
                    let p = O.change_upper upper (O.change_lower lower prob) in
                    subst (SameRows X rows prob)
                      (solve-prob ls p p' m (record st { model = model }) st' r (ground (arith)))
                      (bounded-same prob lower upper)
              ]
            ]
      ]
