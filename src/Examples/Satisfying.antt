-- ===== src/Examples/Satisfying.antt =====
-- `x > y` is asserted where `x` is one and `y` is zero: the theory solver answers with a model.
use dlinear.Base.{
  inl, ℕ, Bool, false, ◌≡◌, refl, sym, subst, some, [], ◌∷◌, ◌==◌, if◌then◌else◌, All, ℤ, pos,
  negsuc, arith,
}
use dlinear.Symbolic.Syntax.{Variable, continuous, variable, gt}
use dlinear.Symbolic.Meaning.{Env}
use dlinear.Symbolic.Plain.{plain}
use dlinear.PlaistedGreenbaum
use dlinear.Nnfizer
use dlinear.PredicateAbstractor
use dlinear.Scoped.Table as Table
use dlinear.Box.Access.{IsShaped}
use dlinear.Box.{Box, at, index, get_elem?, has_variable}
use dlinear.SatSolver.Linear.{find_row}
use dlinear.SatSolver.Linear.Problem.{set_range, dot, satisfies_rows}
use dlinear.SatSolver.Solver.Checked.{Relaxes}
use dlinear.SatSolver.Solver.{Solver, initial, add_formula, check_sat}
use dlinear.TheorySolver.{TheorySolver, delta_sat, copy_solution, check_sat as check_theory}
use dlinear.Context.Reach.{start, by_formula}
use dlinear.Context.Answered.{ReadsModel, IsCovered}
use dlinear.Context.Satisfies.{satisfied_model-Relaxes}
use dlinear.Examples.Integers.{
  integers, integers-IsOrdered, integers-IsAffine, difference, difference-IsDifference,
}
use dlinear.Examples.Exact.{
  Program, infinity, soplex, soplex-IsSoplex, soplex-IsProblem, rows_of, optimizer, shared,
  optimizer-IsOptimizer,
}
use dlinear.Examples.Asserting.{pessimist, x, y, row, asserted, asserts}

abbrev fixed : Box ℤ
fixed = record {
  variables = x ∷ y ∷ [];
  values = record { lb = pos 1; ub = pos 1 } ∷ record { lb = pos 0; ub = pos 0 } ∷ [];
}

-- After `CheckSat`: the row is enabled, and the bounds are those of the box.
abbrev checked : Solver ℤ Program ℕ
checked = record asserted {
  linear = record (asserted.linear) {
    prob = record { rows = record row { lo = pos 0 } ∷ []; cols = 2; lower = []; upper = [] };
    lower = pos 1 ∷ pos 0 ∷ [];
    upper = pos 1 ∷ pos 0 ∷ [];
  };
}

checks :
    check_sat integers infinity soplex plain pessimist fixed asserted
    ≡ some (some ([], (record { id = 2; type = continuous }, false) ∷ []), checked)
unfolding check_sat set_range add_formula PlaistedGreenbaum.convert Nnfizer.convert
    PredicateAbstractor.convert PredicateAbstractor.reuse PredicateAbstractor.find_var initial plain
    PredicateAbstractor.visit_atomic Table.at Table.insert integers
checks = refl

abbrev literal : Variable × Bool
literal = (record { id = 2; type = continuous }, false)

abbrev no_answer : TheorySolver ℤ
no_answer = record { model = fixed; explanation = [] }

abbrev solved : TheorySolver ℤ
solved = no_answer

answers :
    check_theory integers infinity
      (record { lb = negsuc 99; ub = infinity })
      optimizer
      1
      fixed
      (literal ∷ [])
      checked.linear.prob
      checked.linear.lower
      checked.linear.upper
      checked.linear.from_col
      no_answer
    ≡ some (
      delta_sat,
      record (checked.linear.prob) { lower = pos 1 ∷ pos 0 ∷ []; upper = pos 1 ∷ pos 0 ∷ [] },
      solved,
    )
unfolding check_theory copy_solution has_variable satisfies_rows dot add_formula
    PlaistedGreenbaum.convert Nnfizer.convert PredicateAbstractor.convert PredicateAbstractor.reuse
    PredicateAbstractor.find_var initial plain PredicateAbstractor.visit_atomic Table.at
    Table.insert integers
answers = refl

-- `x` is one, and every other variable zero.
abbrev env : Env ℤ
env = record { truth = λ i. false; value = λ i. if i == 0 then pos 1 else pos 0 }

wide : integers.less infinity integers.zero ≡ false
unfolding integers
wide = refl

below : integers.less integers.zero (integers.minus integers.zero infinity) ≡ false
unfolding integers
below = refl

fixed-IsShaped : IsShaped fixed
fixed-IsShaped = omega (arith)

has_columns : asserted.linear.from_col ≡ (1, y) ∷ (0, x) ∷ []
unfolding add_formula PlaistedGreenbaum.convert Nnfizer.convert PredicateAbstractor.convert
    PredicateAbstractor.reuse PredicateAbstractor.find_var initial plain
    PredicateAbstractor.visit_atomic Table.at Table.insert integers
has_columns = refl

has_row : find_row 2 false asserted.linear.to_row ≡ some 0
unfolding find_row add_formula PlaistedGreenbaum.convert Nnfizer.convert PredicateAbstractor.convert
    PredicateAbstractor.reuse PredicateAbstractor.find_var initial plain
    PredicateAbstractor.visit_atomic Table.at Table.insert integers
has_row = refl

reads : All (ReadsModel env solved.model) checked.linear.from_col
unfolding at index get_elem?
reads = subst (All (ReadsModel env fixed)) (sym has_columns) (refl, (refl, tt))

covered : All (IsCovered integers infinity soplex rows_of asserted) (literal ∷ [])
covered = (λ f kept. inl (0, has_row), tt)

satisfied_model-Relaxes_example : All (Relaxes integers env asserted) (literal ∷ [])
satisfied_model-Relaxes_example =
    satisfied_model-Relaxes integers-IsOrdered integers-IsAffine infinity
      (record { lb = negsuc 99; ub = infinity }) soplex-IsSoplex soplex-IsProblem shared
      optimizer-IsOptimizer plain pessimist difference difference-IsDifference 0
      (record { rows = []; cols = 0; lower = []; upper = [] }) 2 asserted checked fixed fixed []
      (literal ∷ []) no_answer solved
      (record (checked.linear.prob) { lower = pos 1 ∷ pos 0 ∷ []; upper = pos 1 ∷ pos 0 ∷ [] }) env
      refl refl below wide fixed-IsShaped
      (by_formula start (λ f. f) (gt (variable x) (variable y)) asserts) checks answers reads
      covered
