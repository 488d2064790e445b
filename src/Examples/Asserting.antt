-- ===== src/Examples/Asserting.antt =====
-- `x > y` is asserted.
use dlinear.Base.{ℕ, ◌+◌, false, ◌≡◌, refl, none, some, [], ◌∷◌, ℤ, pos, negsuc}
use dlinear.Symbolic.Syntax.{Variable, continuous, boolean, variable, gt}
use dlinear.Symbolic.Plain.{plain}
use dlinear.PlaistedGreenbaum
use dlinear.Nnfizer
use dlinear.PredicateAbstractor
use dlinear.Scoped.Table as Table
use dlinear.SatSolver.Linear.Problem.{Row}
use dlinear.SatSolver.Solver.{Picosat, Solver, satisfiable, initial, add_formula}
use dlinear.Examples.Integers.{integers, difference}
use dlinear.Examples.Exact.{Program, infinity, soplex}

-- A SAT solver that makes every variable false.
abbrev pub pessimist : Picosat ℕ
pessimist = record {
  inc_max_var = λ n. (n + 1, n + 1);
  add = λ i n. n;
  variables = λ n. n;
  sat = λ n. (satisfiable, n);
  deref = λ n i. some false;
  deref_partial = λ n i. some false;
}

abbrev pub x : Variable
x = record { id = 0; type = continuous }

abbrev pub y : Variable
y = record { id = 1; type = continuous }

abbrev pub first : Solver ℤ Program ℕ
first = initial 0 (record { rows = []; cols = 0; lower = []; upper = [] }) 2

abbrev pub atom : Variable
atom = record { id = 2; type = boolean }

abbrev pub row : Row ℤ
row = record { lo = negsuc 99; coeffs = (0, pos 1) ∷ (1, negsuc 0) ∷ []; hi = pos 100 }

-- After `x > y` is asserted: its row is there, and disabled.
abbrev pub asserted : Solver ℤ Program ℕ
asserted =
    elim (add_formula integers infinity soplex plain pessimist difference 1 (λ f. f)
      (gt (variable x) (variable y)) first) [ none ↦ first | some s ↦ s ]

pub asserts :
    add_formula integers infinity soplex plain pessimist difference 1
      (λ f. f)
      (gt (variable x) (variable y))
      first
    ≡ some asserted
unfolding add_formula PlaistedGreenbaum.convert Nnfizer.convert PredicateAbstractor.convert
    PredicateAbstractor.reuse PredicateAbstractor.find_var initial plain
    PredicateAbstractor.visit_atomic Table.at Table.insert integers
asserts = refl
