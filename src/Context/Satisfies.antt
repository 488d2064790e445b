-- ===== src/Context/Satisfies.antt =====
-- A model of the theory solver satisfies the theory literals of the SAT solver's model.
use dlinear.Base.{
  ℕ, true, false, ◌≡◌, refl, subst, some, List, ◌==◌, All, All-imp, All-both, length, Bool-cases,
  inl, inr, arith,
}
use dlinear.Symbolic.Syntax.{Variable, Formula, Expression}
use dlinear.Symbolic.Meaning.{Structure, IsOrdered, Env}
use dlinear.Symbolic.Library.{Library}
use dlinear.Literal.{Literals}
use dlinear.Box.Intervals.{Interval}
use dlinear.Box.{Box}
use dlinear.Box.Access.{IsShaped}
use dlinear.SatSolver.Linear.{Soplex, Linear}
use dlinear.SatSolver.Linear.Bounds.{WithinBounds}
use dlinear.SatSolver.Linear.Columns.{IsSoplex}
use dlinear.SatSolver.Linear.Problem.{Row, IsProblem, satisfies_rows}
use dlinear.SatSolver.Linear.Affine.{IsAffine, Follows}
use dlinear.SatSolver.Linear.Ranges.{IsDifference}
use dlinear.SatSolver.Linear.Represents.{IsNumbered, Represents}
use dlinear.SatSolver.Linear.OnRow.{OnRow-relaxed}
use dlinear.SatSolver.Solver.{Picosat, Solver, check_sat}
use dlinear.SatSolver.Solver.Checked.{Relaxes, check_sat-Keeps}
use dlinear.SatSolver.Solver.Enforced.{check_sat-Holds}
use dlinear.TheorySolver.{Optimizer, TheorySolver, delta_sat, check_sat as check_theory}
use dlinear.TheorySolver.Laws.{IsOptimizer}
use dlinear.TheorySolver.Solution.{check_sat-IsPoint, check_sat-solution}
use dlinear.Context.Shared.{IsShared}
use dlinear.Context.Reach.{Reachable, Reachable-IsKept}
use dlinear.Context.Refutes.{number_at, satisfies, point as numbers, Follows-point}
use dlinear.Context.Answered.{
  numbered-Distinct, ReadsModel, no_rows-satisfied, IsCovered, IsPoint-WithinBounds, Copied-Follows,
  Copied-WithinBounds,
}

module _ {Q P Z : Type 0} {S : Structure Q} (ordered : IsOrdered S) (affine : IsAffine S)
    (infinity : Q) (entire : Interval Q) {X : Soplex Q P} {O : Optimizer Q P} (law : IsSoplex X)
    {rows : P → List (Row Q)} (problem : IsProblem X rows) (shared : IsShared X O rows)
    (optimizer : IsOptimizer S O (satisfies S infinity rows)) (L : Library Q) (I : Picosat Z)
    (difference : Expression Q → Expression Q → Expression Q)
    (expand : IsDifference S difference) where
  -- A point that the theory solver answers with lies within the bounds and satisfies the rows.
  answer-satisfies :
      (formulas : List (Variable × Formula Q)) (l : Linear Q P) (box : Box Q) (theory : Literals)
      (p : P) (st st' : TheorySolver Q) (env : Env Q)
      → Represents S infinity X rows formulas l
      → S.less S.zero (S.minus S.zero infinity) ≡ false
      → S.less infinity S.zero ≡ false
      → IsShaped box
      → check_theory S infinity entire O 1 box theory l.prob l.lower l.upper l.from_col st
        ≡ some (delta_sat, p, st')
      → All (ReadsModel env st'.model) l.from_col
      → WithinBounds S env l
        × ((y : ℕ → Q) × Follows env y l.to_col
            × (satisfies_rows S infinity y (rows l.prob) ≡ true))
  answer-satisfies formulas l box theory p st st' env h low high shaped found reads =
      let distinct =
        numbered-Distinct (X.num_cols l.prob) l.from_col
          (subst (IsNumbered (X.num_cols l.prob)) h.mirror h.numbered) in
      elim (Bool-cases (O.num_rows l.prob == 0)) [
        | inl empty ↦
            let none_left : O.num_rows l.prob ≡ 0 = ground (arith, empty) in
            let no_rows : length (rows l.prob) ≡ 0 =
              omega (arith, none_left, shared.same_rows l.prob, problem.num_rows-length l.prob) in
            (
              IsPoint-WithinBounds infinity X rows formulas l env st'.model h reads (
                  check_sat-IsPoint ordered infinity entire optimizer 1 box theory l.prob p l.lower
                    l.upper l.from_col st st' low high (inl refl) shaped distinct found),
              (
                number_at S infinity rows (numbers env l.to_col),
                Follows-point S infinity rows env (X.num_cols l.prob) l.to_col h.numbered,
                no_rows-satisfied S infinity _ (rows l.prob) no_rows,
              ),
            )
        | inr full ↦
            let (x, within, met, copied) =
              check_sat-solution ordered infinity entire optimizer 1 box theory l.prob p l.lower
                l.upper l.from_col st st' low high (inl refl) shaped distinct full found in
            (
              Copied-WithinBounds infinity X rows formulas l env st'.model h reads x copied within,
              (
                number_at S infinity rows x,
                Copied-Follows infinity X rows formulas l env st'.model h reads x copied,
                met,
              ),
            )
      ]

  -- From any state of the SAT solver that `Assert`, `CheckSat` of both solvers and learning reach
  -- in phase one, from an empty linear problem: where the SAT solver's `CheckSat` gives a model,
  -- the theory solver's then answers that there is a solution, and each theory literal of the model
  -- has its row, is a simple bound or restricts no side, a point with the numbers of the answer
  -- satisfies every theory literal of the model, strict inequalities relaxed and disequalities
  -- dropped. The box of the theory solver has an interval for every variable, zero lies between the
  -- infinities, and the libraries keep their documented laws, over ordered numbers.
  pub satisfied_model-Relaxes :
      (sat : Z) (prob : P) (next : ℕ) (s t : Solver Q P Z) (box box' : Box Q)
      (bools theory : Literals) (st st' : TheorySolver Q) (p : P) (env : Env Q)
      → X.num_rows prob ≡ 0
      → X.num_cols prob ≡ 0
      → S.less S.zero (S.minus S.zero infinity) ≡ false
      → S.less infinity S.zero ≡ false
      → IsShaped box'
      → Reachable S infinity entire X O L I difference 1 sat prob next s
      → check_sat S infinity X L I box s ≡ some (some (bools, theory), t)
      → check_theory S infinity entire O 1 box' theory t.linear.prob t.linear.lower t.linear.upper
          t.linear.from_col st
        ≡ some (delta_sat, p, st')
      → All (ReadsModel env st'.model) t.linear.from_col
      → All (IsCovered S infinity X rows s) theory
      → All (Relaxes S env s) theory
  satisfied_model-Relaxes sat prob next s t box box' bools theory st st' p env no_rows no_cols low
        high shaped reached found answered reads covered =
      let h =
        Reachable-IsKept ordered affine infinity entire law problem shared L I difference expand 1
          refl sat prob next s no_rows no_cols reached in
      let k = check_sat-Keeps ordered infinity problem L I box s t (some (bools, theory)) found h in
      let (inside, (y, follows, met)) =
        answer-satisfies t.abstractor.var_to_formula t.linear box' theory p st st' env k low high
          shaped answered reads in
      let held = check_sat-Holds ordered infinity problem L I box s t bools theory found h in
      All-imp
        (λ (v, sign) (holds, has) f kept. elim (holds f kept (has f kept)) [
          | inl (row, on) ↦ OnRow-relaxed infinity problem t.linear f sign row env y on follows met
          | inr bound ↦ bound env inside
        ])
        theory (All-both _ _ theory held covered)
