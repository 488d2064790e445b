-- ===== src/Examples/Looping.antt =====
-- `CheckSatCore` where `x > y` is asserted, `x` is zero and `y` is one: one model is refuted, and
-- with the clause learned from it the SAT solver has no other.
use dlinear.Base.{ℕ, ◌+◌, false, none, some, [], ◌∷◌, ◌==◌, if◌then◌else◌, ℤ, pos, negsuc}
use dlinear.Symbolic.Syntax.{variable, gt, Formula}
use dlinear.Symbolic.Plain.{plain}
use dlinear.PlaistedGreenbaum
use dlinear.Nnfizer
use dlinear.PredicateAbstractor
use dlinear.Scoped.Table as Table
use dlinear.Box.Intervals.{Interval}
use dlinear.Box.{Box}
use dlinear.SatSolver.Solver.{
  Picosat, Solver, satisfiable, unsatisfiable, initial, add_formula, check_sat,
}
use dlinear.TheorySolver.{TheorySolver, check_sat as check_theory}
use dlinear.Examples.Integers.{integers, difference}
use dlinear.Examples.Exact.{Program, infinity, soplex}
use dlinear.Examples.Asserting.{x, y}

-- A SAT solver that counts variables and clauses. It makes every variable false, and has a model
-- for one clause only.
abbrev counting : Picosat (ℕ × ℕ)
counting = record {
  inc_max_var = λ z. (z.0 + 1, (z.0 + 1, z.1));
  add = λ i z. elim i [ pos n ↦ (z.0, if n == 0 then z.1 + 1 else z.1) | negsuc n ↦ z ];
  variables = λ z. z.0;
  sat = λ z. (if z.1 == 1 then satisfiable else unsatisfiable, z);
  deref = λ z i. some false;
  deref_partial = λ z i. some false;
}

abbrev no_rows : Program
no_rows = record { rows = []; cols = 0; lower = []; upper = [] }

abbrev assertion : Formula ℤ
assertion = gt (variable x) (variable y)

abbrev first : Solver ℤ Program (ℕ × ℕ)
first = initial (0, 0) no_rows 2

abbrev asserted : Solver ℤ Program (ℕ × ℕ)
asserted =
    elim (add_formula integers infinity soplex plain counting difference 1 (λ f. f) assertion
      first) [ none ↦ first | some s ↦ s ]

abbrev entire : Interval ℤ
entire = record { lb = negsuc 99; ub = infinity }

abbrev fixed : Box ℤ
fixed = record {
  variables = x ∷ y ∷ [];
  values = record { lb = pos 0; ub = pos 0 } ∷ record { lb = pos 1; ub = pos 1 } ∷ [];
}

abbrev unasked : TheorySolver ℤ
unasked = record { model = fixed; explanation = [] }
