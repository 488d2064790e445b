-- ===== src/Context/Run.antt =====
-- The rounds of `CheckSatCore` with the two solvers, and what each of them learns.
use dlinear.Base.{ℕ, Bool, true, false, ◌≡◌, none, some, List}
use dlinear.Symbolic.Syntax.{Variable, Formula, Expression}
use dlinear.Symbolic.Meaning.{Structure, Env, holds}
use dlinear.Symbolic.Library.{Library}
use dlinear.PredicateAbstractor.{find_formula}
use dlinear.Literal.{Literals}
use dlinear.Literal.Sets.{all_true}
use dlinear.Box.Intervals.{Interval}
use dlinear.Box.{Box}
use dlinear.SatSolver.Linear.{Soplex, reset_linear_problem, same_bool}
use dlinear.SatSolver.Linear.Bounds.{WithinBounds}
use dlinear.SatSolver.Solver.{Picosat, Solver, add_learned_clause, check_sat}
use dlinear.TheorySolver.{Optimizer, TheorySolver, check_sat as check_theory}
use dlinear.Context.{unsatisfiable, assign_all}
use dlinear.Context.Solvers.{call_theory, engine}

module _ {Q P Z : Type 0} (S : Structure Q) where
  -- The literal is true at the point; one without a formula says nothing of the point.
  abbrev pub says : Solver Q P Z → Env Q → Variable × Bool → Bool
  says s env (v, sign) = elim (find_formula v s.abstractor.var_to_formula) [
    | none ↦ true
    | some f ↦ same_bool (holds S env f) sign
  ]

module _ {Q P Z : Type 0} (S : Structure Q) (infinity : Q) (entire : Interval Q) (X : Soplex Q P)
    (O : Optimizer Q P) (L : Library Q) (I : Picosat Z)
    (difference : Expression Q → Expression Q → Expression Q) (phase : ℕ)
    (naive : Formula Q → Formula Q) (eliminate : Formula Q → Formula Q × List Variable) where
  -- Rounds up to the answer of the SAT solver that there is no model. In each of them the theory
  -- solver refutes a model, and the literals that it explains this by are true together at no point
  -- within the bounds of the box; the clause that excludes them is learned.
  pub data RefutedRun : Box Q → Solver Q P Z → TheorySolver Q → Type 0 where
    ends :
        {box : Box Q} {s s1 : Solver Q P Z} {t : TheorySolver Q}
        → check_sat S infinity X L I box s ≡ some (none, s1)
        → RefutedRun box s t
    round :
        {box box1 : Box Q} {s s1 s2 s3 : Solver Q P Z} {t t2 : TheorySolver Q}
        {bools ls es : Literals}
        → check_sat S infinity X L I box s ≡ some (some (bools, ls), s1)
        → assign_all S entire
            (engine S infinity entire X O L I difference phase naive eliminate)
            bools
            box
          ≡ some box1
        → call_theory S infinity entire X O L I difference phase box1 ls s1 t
          ≡ some (unsatisfiable es, s2, t2)
        → ((env : Env Q)
            → WithinBounds S env (reset_linear_problem S infinity X box s.linear)
            → all_true (says S s) env es ≡ false)
        → add_learned_clause S infinity X L I difference phase es s2 ≡ some s3
        → RefutedRun box1 s3 t2
        → RefutedRun box s t
