-- ===== src/Context/Found.antt =====
-- The rounds of `CheckSatCore` with the two solvers, up to a model.
use dlinear.Base.{ℕ, ◌≡◌, some, List, [], All}
use dlinear.Symbolic.Syntax.{Variable, Formula, Expression}
use dlinear.Symbolic.Meaning.{Structure, Env}
use dlinear.Symbolic.Library.{Library}
use dlinear.Literal.{Literals}
use dlinear.Box.Intervals.{Interval}
use dlinear.Box.{Box}
use dlinear.SatSolver.Linear.{Soplex}
use dlinear.SatSolver.Linear.Problem.{Row}
use dlinear.SatSolver.Solver.{Picosat, Solver, add_learned_clause, check_sat}
use dlinear.TheorySolver.{Optimizer, TheorySolver, check_sat as check_theory}
use dlinear.Context.{delta_satisfiable, unsatisfiable, assign_all}
use dlinear.Context.Solvers.{call_theory, engine}
use dlinear.Context.Reach.{by_theory as after_theory}
use dlinear.Context.Answered.{ReadsModel, IsCovered}
use dlinear.SatSolver.Solver.Checked.{Relaxes}

module _ {Q P Z : Type 0} (S : Structure Q) (infinity : Q) (entire : Interval Q) (X : Soplex Q P)
    (O : Optimizer Q P) (rows : P → List (Row Q)) (L : Library Q) (I : Picosat Z)
    (difference : Expression Q → Expression Q → Expression Q) (phase : ℕ)
    (naive : Formula Q → Formula Q) (eliminate : Formula Q → Formula Q × List Variable) where
  -- Rounds up to a model: the box, where the last model of the SAT solver has no theory literal, and
  -- otherwise the model of the theory solver, whose numbers satisfy the theory literals that have
  -- their row or need none, strict inequalities relaxed.
  pub data FoundRun : Box Q → Solver Q P Z → TheorySolver Q → Box Q → Type 0 where
    by_clauses :
        {box box1 : Box Q} {s s1 : Solver Q P Z} {t : TheorySolver Q} {bools : Literals}
        → check_sat S infinity X L I box s ≡ some (some (bools, []), s1)
        → assign_all S entire
            (engine S infinity entire X O L I difference phase naive eliminate)
            bools
            box
          ≡ some box1
        → FoundRun box s t box1
    by_theory :
        {box box1 model : Box Q} {s s1 s2 : Solver Q P Z} {t t2 : TheorySolver Q}
        {bools ls : Literals}
        → check_sat S infinity X L I box s ≡ some (some (bools, ls), s1)
        → assign_all S entire
            (engine S infinity entire X O L I difference phase naive eliminate)
            bools
            box
          ≡ some box1
        → call_theory S infinity entire X O L I difference phase box1 ls s1 t
          ≡ some (delta_satisfiable model, s2, t2)
        → ((env : Env Q)
            → All (ReadsModel env model) s1.linear.from_col
            → All (IsCovered S infinity X rows s) ls
            → All (Relaxes S env s) ls)
        → FoundRun box s t model
    round :
        {box box1 model : Box Q} {s s1 s2 s3 : Solver Q P Z} {t t2 : TheorySolver Q}
        {bools ls es : Literals}
        → check_sat S infinity X L I box s ≡ some (some (bools, ls), s1)
        → assign_all S entire
            (engine S infinity entire X O L I difference phase naive eliminate)
            bools
            box
          ≡ some box1
        → call_theory S infinity entire X O L I difference phase box1 ls s1 t
          ≡ some (unsatisfiable es, s2, t2)
        → add_learned_clause S infinity X L I difference phase es s2 ≡ some s3
        → FoundRun box1 s3 t2 model
        → FoundRun box s t model
