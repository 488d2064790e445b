-- ===== src/TheorySolver.antt =====
-- dreal/solver/soplex_theory_solver.cc: `SoplexTheorySolver::CheckSat`. SoPlex is a parameter. A call
-- that throws, and an index out of range, returns `none`; `SAT_UNSOLVED` is never the answer, for
-- this class throws at every status that it does not expect. Assertions of debug builds, logging and
-- statistics are left out.
pub mod Bounds
pub mod Missing
pub mod Laws
pub mod Solution
pub mod Refuted
use dlinear.Base.{
  ℕ, zero, suc, Bool, true, false, not, ◌||◌, ◌&&◌, Option, none, some, List, [], ◌∷◌,
  if◌then◌else◌, ◌==◌,
}
use dlinear.Symbolic.Syntax.{Variable}
use dlinear.Symbolic.Meaning.{Structure}
use dlinear.Literal.{Literals, insert_literals}
use dlinear.Box.Intervals.{Interval, point}
use dlinear.Box.{Box, add, has_variable, assign_at, get_elem?}

-- `SPxSolver::Status`; `other` is every status that the class does not name.
pub data Status : Type 0 where
  optimal unbounded infeasible other : Status

-- The calls of `soplex::SoPlex` that solve a problem of type `P`.
pub record Optimizer (Q P : Type 0) : Type 0 where
  pub num_rows : P → ℕ
  pub num_cols : P → ℕ
  pub change_lower : List Q → P → P
  pub change_upper : List Q → P → P
  pub optimize : P → Status × P
  -- `getPrimalRational(x)`: whether there is a solution, and what `x` then holds.
  pub get_primal : List Q → P → Bool × List Q
  pub get_obj : P → List Q

-- `model_` and `explanation_`.
pub record TheorySolver (Q : Type 0) : Type 0 where
  pub model : Box Q
  pub explanation : Literals

-- The result of `CheckSat`: `SAT_DELTA_SATISFIABLE` or `SAT_UNSATISFIABLE`.
pub data Verdict : Type 0 where
  delta_sat unsat : Verdict

abbrev pub is_optimal : Status → Bool
is_optimal optimal = true
is_optimal _ = false

abbrev pub is_expected : Status → Bool
is_expected other = false
is_expected _ = true

module _ {Q : Type 0} (S : Structure Q) (infinity : Q) (entire : Interval Q) where
  -- The variables that the box lacks are added to the model.
  unfoldable pub add_missing : List (ℕ × Variable) → Box Q → Option (Box Q)
  add_missing [] b = some b
  add_missing ((col, v) ∷ m) b = elim (if has_variable b v then some b else add S entire v b) [
    | none ↦ none
    | some b' ↦ add_missing m b'
  ]

  -- The value of a variable that no row restricts.
  unfoldable pub free_value : Q → Q → Q
  free_value lb ub =
      if S.less (S.minus S.zero infinity) lb then lb else if S.less ub infinity then ub else S.zero

  -- The first loop: `false` where a lower bound lies above its upper bound.
  unfoldable pub check_bounds :
      List Q → List Q → Bool → List (ℕ × Variable) → Box Q → Option (Bool × Box Q)
  unfolding free_value assign_at get_elem?
  check_bounds lower upper no_rows [] model = some (true, model)
  check_bounds lower upper no_rows ((col, v) ∷ m) model = elim (get_elem? lower col) [
    | none ↦ none
    | some lb ↦ elim (get_elem? upper col) [
      | none ↦ none
      | some ub ↦
          let rest =
            check_bounds lower upper no_rows m
              (if no_rows then assign_at model v (point (free_value lb ub)) else model) in
          if S.less ub lb then some (false, model) else rest
    ]
  ]

  -- The last loop: the solution is copied into the model.
  unfoldable pub copy_solution : List Q → List (ℕ × Variable) → Box Q → Option (Box Q)
  unfolding assign_at get_elem?
  copy_solution x [] model = some model
  copy_solution x ((col, v) ∷ m) model = elim (get_elem? x col) [
    | none ↦ none
    | some value ↦ copy_solution x m (assign_at model v (point value))
  ]

  -- `obj[i] == 0 || x[i] == 0` for every column, up to the first that fails.
  unfoldable pub no_objective : ℕ → List Q → List Q → Option Bool
  no_objective zero obj x = some true
  no_objective (suc n) [] x = none
  no_objective (suc n) (o ∷ obj) [] = none
  no_objective (suc n) (o ∷ obj) (a ∷ x) =
      let rest = no_objective n obj x in
      if S.equal o S.zero || S.equal a S.zero then rest else some false

  -- The answer that a status and a solution give; `phase` is `config_.simplex_sat_phase()`.
  unfoldable pub judge : ℕ → Status → ℕ → List Q → List Q → Option Verdict
  unfolding no_objective
  judge phase status n obj x =
      if ((phase == 2) && not (is_optimal status)) || not (is_expected status)
      then none
      else if phase == 1
      then some (elim status [ infeasible ↦ unsat | _ ↦ delta_sat ])
      else elim (no_objective n obj x) [
        | none ↦ none
        | some ok ↦ some (if ok then delta_sat else unsat)
      ]

  abbrev pub zeros : ℕ → List Q
  zeros zero = []
  zeros (suc n) = S.zero ∷ zeros n

  module _ {P : Type 0} (O : Optimizer Q P) (phase : ℕ) where
    -- What follows the call of SoPlex on the problem with its bounds.
    unfoldable pub solve :
        Literals → P → List (ℕ × Variable) → TheorySolver Q → Option (Verdict × P × TheorySolver Q)
    unfolding judge copy_solution insert_literals
    solve assertions prob var_map st =
        let (status, p) = O.optimize prob in
        let (have, x) = O.get_primal (zeros (O.num_cols prob)) p in
        elim (judge phase status (O.num_cols prob) (O.get_obj p) x) [
          | none ↦ none
          | some unsat ↦ some (unsat, p, record st { explanation = insert_literals assertions [] })
          | some delta_sat ↦
              if have
              then elim (copy_solution x var_map st.model) [
                | none ↦ none
                | some model ↦ some (delta_sat, p, record st { model = model })
              ]
              else none
        ]

    unfoldable pub check_sat :
        Box Q
        → Literals
        → P
        → List Q
        → List Q
        → List (ℕ × Variable)
        → TheorySolver Q
        → Option (Verdict × P × TheorySolver Q)
    unfolding add_missing check_bounds solve insert_literals
    check_sat box assertions prob lower upper var_map st =
        let no_rows = O.num_rows prob == 0 in
        elim (add_missing var_map box) [
          | none ↦ none
          | some model0 ↦ elim (check_bounds lower upper no_rows var_map model0) [
            | none ↦ none
            | some (false, model) ↦
                some (
                  unsat,
                  prob,
                  record { model = model; explanation = insert_literals assertions [] },
                )
            | some (true, model) ↦
                if no_rows
                then some (delta_sat, prob, record st { model = model })
                else solve assertions (O.change_upper upper (O.change_lower lower prob)) var_map
                    (record st { model = model })
          ]
        ]
