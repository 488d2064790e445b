-- ===== src/Examples/Refuting.antt =====
-- `x > y` is asserted where `x` is zero and `y` is one: the SAT solver's model is refuted.
use dlinear.Base.{
  ℕ, Bool, false, ◌≡◌, refl, sym, subst, some, [], ◌∷◌, ◌==◌, if◌then◌else◌, All, ℤ, pos, negsuc,
  arith,
}
use dlinear.Symbolic.Syntax.{Variable, continuous, variable, gt}
use dlinear.Symbolic.Meaning.{Env}
use dlinear.Symbolic.Plain.{plain}
use dlinear.PlaistedGreenbaum
use dlinear.Nnfizer
use dlinear.PredicateAbstractor
use dlinear.Scoped.Table as Table
use dlinear.Box.{Box, get_elem?, has_variable}
use dlinear.SatSolver.Linear.{Linear, sense_g, find_col, reset_linear_problem}
use dlinear.SatSolver.Linear.Problem.{set_range, dot, satisfies_rows}
use dlinear.SatSolver.Linear.Bounds.{WithinBounds}
use dlinear.SatSolver.Solver.Sound.{Agrees}
use dlinear.SatSolver.Solver.{Solver, initial, add_formula, check_sat}
use dlinear.TheorySolver.{TheorySolver, unsat, check_sat as check_theory}
use dlinear.SatSolver.Solver.Kept.{IsKept}
use dlinear.Context.Reach.{Reachable-IsKept, start, by_formula}
use dlinear.Context.Refutes.{refuted_model-empty}
use dlinear.Examples.Integers.{
  integers, integers-IsOrdered, integers-IsAffine, difference, difference-IsDifference,
}
use dlinear.Examples.Exact.{
  rows_of, Program, infinity, soplex, soplex-IsSoplex, soplex-IsProblem, optimizer, shared,
  optimizer-IsOptimizer,
}
use dlinear.Examples.Asserting.{pessimist, x, y, atom, row, asserted, asserts}

abbrev fixed : Box ℤ
fixed = record {
  variables = x ∷ y ∷ [];
  values = record { lb = pos 0; ub = pos 0 } ∷ record { lb = pos 1; ub = pos 1 } ∷ [];
}

-- After `CheckSat`: the row is enabled, and the bounds are those of the box.
abbrev checked : Solver ℤ Program ℕ
checked = record asserted {
  linear = record (asserted.linear) {
    prob = record { rows = record row { lo = pos 0 } ∷ []; cols = 2; lower = []; upper = [] };
    lower = pos 0 ∷ pos 1 ∷ [];
    upper = pos 0 ∷ pos 1 ∷ [];
  };
}

checks :
    check_sat integers infinity soplex plain pessimist fixed asserted
    ≡ some (some ([], (record { id = 2; type = continuous }, false) ∷ []), checked)
unfolding check_sat set_range add_formula PlaistedGreenbaum.convert Nnfizer.convert
    PredicateAbstractor.convert PredicateAbstractor.reuse PredicateAbstractor.find_var initial plain
    PredicateAbstractor.visit_atomic Table.at Table.insert integers
checks = refl

abbrev literal : Variable × Bool
literal = (record { id = 2; type = continuous }, false)

abbrev no_answer : TheorySolver ℤ
no_answer = record { model = fixed; explanation = [] }

abbrev refuted : TheorySolver ℤ
refuted = record { model = fixed; explanation = literal ∷ [] }

refutation :
    check_theory integers infinity
      (record { lb = negsuc 99; ub = infinity })
      optimizer
      1
      fixed
      (literal ∷ [])
      checked.linear.prob
      checked.linear.lower
      checked.linear.upper
      checked.linear.from_col
      no_answer
    ≡ some (
      unsat,
      record (checked.linear.prob) { lower = pos 0 ∷ pos 1 ∷ []; upper = pos 0 ∷ pos 1 ∷ [] },
      refuted,
    )
unfolding check_theory has_variable satisfies_rows dot add_formula PlaistedGreenbaum.convert
    Nnfizer.convert PredicateAbstractor.convert PredicateAbstractor.reuse
    PredicateAbstractor.find_var initial plain PredicateAbstractor.visit_atomic Table.at
    Table.insert integers
refutation = refl

-- `x` is zero, and every other variable one.
abbrev env : Env ℤ
env = record { truth = λ i. false; value = λ i. if i == 0 then pos 0 else pos 1 }

-- The linear problem with the bounds of the box, and the row disabled.
abbrev opened : Linear ℤ Program
opened = record {
  prob = record { rows = row ∷ []; cols = 2; lower = []; upper = [] };
  lower = pos 0 ∷ pos 1 ∷ [];
  upper = pos 0 ∷ pos 1 ∷ [];
  to_col = (1, 1) ∷ (0, 0) ∷ [];
  from_col = (1, y) ∷ (0, x) ∷ [];
  to_row = ((2, false), 0) ∷ [];
  from_row = (atom, false) ∷ [];
  rhs = pos 0 ∷ [];
  sense = sense_g ∷ [];
}

opens : reset_linear_problem integers infinity soplex fixed asserted.linear ≡ opened
unfolding reset_linear_problem set_range add_formula PlaistedGreenbaum.convert Nnfizer.convert
    PredicateAbstractor.convert PredicateAbstractor.reuse PredicateAbstractor.find_var initial plain
    PredicateAbstractor.visit_atomic Table.at Table.insert integers
opens = refl

opened-WithinBounds : WithinBounds integers env opened
unfolding find_col get_elem? integers
opened-WithinBounds i col h = ground (arith)

Reachable-IsKept_example : IsKept integers infinity soplex rows_of asserted
Reachable-IsKept_example =
    Reachable-IsKept integers-IsOrdered integers-IsAffine infinity
      (record { lb = negsuc 99; ub = infinity }) soplex-IsSoplex soplex-IsProblem shared plain
      pessimist difference difference-IsDifference 1 refl 0
      (record { rows = []; cols = 0; lower = []; upper = [] }) 2 asserted refl refl
      (by_formula start (λ f. f) (gt (variable x) (variable y)) asserts)

refuted_model-empty_example : ¬ All (Agrees integers env asserted) (literal ∷ [])
refuted_model-empty_example =
    refuted_model-empty integers-IsOrdered integers-IsAffine infinity
      (record { lb = negsuc 99; ub = infinity }) soplex-IsSoplex soplex-IsProblem shared
      optimizer-IsOptimizer plain pessimist difference difference-IsDifference 0
      (record { rows = []; cols = 0; lower = []; upper = [] }) 2 asserted checked fixed fixed []
      (literal ∷ []) no_answer refuted
      (record (checked.linear.prob) { lower = pos 0 ∷ pos 1 ∷ []; upper = pos 0 ∷ pos 1 ∷ [] }) env
      refl refl (by_formula start (λ f. f) (gt (variable x) (variable y)) asserts) checks refutation
      (subst (WithinBounds integers env) (sym opens) opened-WithinBounds)
