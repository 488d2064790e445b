-- ===== src/Context/Solvers.antt =====
-- dreal/solver/soplex_context_impl.cc: the two solvers as `CheckSatCore` calls them.
use dlinear.Base.{ℕ, Option, none, some, List}
use dlinear.Symbolic.Syntax.{Variable, Formula, Expression}
use dlinear.Symbolic.Meaning.{Structure}
use dlinear.Symbolic.Library.{Library}
use dlinear.Literal.{Literals}
use dlinear.Box.Intervals.{Interval}
use dlinear.Box.{Box}
use dlinear.SatSolver.Linear.{Soplex}
use dlinear.SatSolver.Solver.{Picosat, Solver, add_formula, add_learned_clause, check_sat}
use dlinear.TheorySolver.{Optimizer, TheorySolver, delta_sat, unsat, check_sat as check_theory}
use dlinear.Context.{TheoryAnswer, delta_satisfiable, unsatisfiable, Engine}

module _ {Q P Z : Type 0} (S : Structure Q) (infinity : Q) (entire : Interval Q) (X : Soplex Q P)
    (O : Optimizer Q P) (L : Library Q) (I : Picosat Z)
    (difference : Expression Q → Expression Q → Expression Q) (phase : ℕ) where
  -- The theory solver works on the linear problem that the SAT solver holds.
  unfoldable pub call_theory :
      Box Q
      → Literals
      → Solver Q P Z
      → TheorySolver Q
      → Option (TheoryAnswer Q × Solver Q P Z × TheorySolver Q)
  call_theory box ls s t =
      elim (check_theory S infinity entire O phase box ls s.linear.prob s.linear.lower
        s.linear.upper s.linear.from_col t) [
          | none ↦ none
          | some (delta_sat, p, t') ↦
              some (
                delta_satisfiable t'.model,
                record s { linear = record (s.linear) { prob = p } },
                t',
              )
          | some (unsat, p, t') ↦ some (
            unsatisfiable t'.explanation,
            record s { linear = record (s.linear) { prob = p } },
            t',
          )
        ]

  unfoldable pub engine :
      (Formula Q → Formula Q)
      → (Formula Q → Formula Q × List Variable)
      → Engine Q (Solver Q P Z) (TheorySolver Q)
  unfolding call_theory
  engine naive eliminate = record {
    add_formula = add_formula S infinity X L I difference phase naive;
    check_sat = check_sat S infinity X L I;
    check_theory = call_theory;
    add_learned_clause = add_learned_clause S infinity X L I difference phase;
    eliminate = eliminate;
  }
