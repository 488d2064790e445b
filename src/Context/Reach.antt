-- ===== src/Context/Reach.antt =====
-- The states of the SAT solver that the calls of the context lead to.
use dlinear.Base.{ℕ, false, ◌≡◌, refl, sym, Option, some, List, ◌==◌, arith}
use dlinear.Symbolic.Syntax.{Formula, Expression}
use dlinear.Symbolic.Meaning.{Structure, IsOrdered}
use dlinear.Symbolic.Library.{Library}
use dlinear.Literal.{Literals}
use dlinear.Box.Intervals.{Interval}
use dlinear.Box.{Box}
use dlinear.SatSolver.Linear.{Soplex, find_col, find_row}
use dlinear.SatSolver.Linear.Columns.{IsSoplex}
use dlinear.SatSolver.Linear.Problem.{Row, IsProblem}
use dlinear.SatSolver.Linear.Affine.{IsAffine}
use dlinear.SatSolver.Linear.Ranges.{IsDifference}
use dlinear.SatSolver.Linear.SameRows.{replaced}
use dlinear.SatSolver.Solver.{
  Picosat, Solver, Model, initial, add_formula, add_learned_clause, check_sat,
}
use dlinear.SatSolver.Solver.Kept.{IsKept, add_formula-Keeps, add_learned_clause-Keeps}
use dlinear.SatSolver.Solver.Checked.{check_sat-Keeps}
use dlinear.TheorySolver.{Optimizer, TheorySolver, Verdict, check_sat as check_theory}
use dlinear.Context.Shared.{IsShared, check_theory-same}

module _ {Q P Z : Type 0} (S : Structure Q) (infinity : Q) (entire : Interval Q) (X : Soplex Q P)
    (O : Optimizer Q P) (L : Library Q) (I : Picosat Z)
    (difference : Expression Q → Expression Q → Expression Q) (phase : ℕ) where
  -- `Assert`, the two solvers' `CheckSat` and the learning of a clause, in any order.
  pub data Reachable (sat : Z) (prob : P) (next : ℕ) : Solver Q P Z → Type 0 where
    start : Reachable sat prob next (initial sat prob next)
    by_formula :
        {s t : Solver Q P Z}
        → Reachable sat prob next s
        → (naive : Formula Q → Formula Q) (f : Formula Q)
        → add_formula S infinity X L I difference phase naive f s ≡ some t
        → Reachable sat prob next t
    by_learned :
        {s t : Solver Q P Z}
        → Reachable sat prob next s
        → (ls : Literals) → add_learned_clause S infinity X L I difference phase ls s ≡ some t
        → Reachable sat prob next t
    by_check :
        {s t : Solver Q P Z}
        → Reachable sat prob next s
        → (box : Box Q) (r : Option Model) → check_sat S infinity X L I box s ≡ some (r, t)
        → Reachable sat prob next t
    by_theory :
        {s : Solver Q P Z}
        → Reachable sat prob next s
        → (box : Box Q) (ls : Literals) (st st' : TheorySolver Q) (r : Verdict) (p : P)
        → check_theory S infinity entire O phase box ls s.linear.prob s.linear.lower s.linear.upper
            s.linear.from_col st
          ≡ some (r, p, st')
        → Reachable sat prob next (record s { linear = record (s.linear) { prob = p } })

module _ {Q P Z : Type 0} {S : Structure Q} (ordered : IsOrdered S) (affine : IsAffine S)
    (infinity : Q) (entire : Interval Q) {X : Soplex Q P} {O : Optimizer Q P} (law : IsSoplex X)
    {rows : P → List (Row Q)} (problem : IsProblem X rows) (shared : IsShared X O rows)
    (L : Library Q) (I : Picosat Z) (difference : Expression Q → Expression Q → Expression Q)
    (expand : IsDifference S difference) (phase : ℕ) (one : (phase == 2) ≡ false) where
  initial-IsKept :
      (sat : Z) (prob : P) (next : ℕ)
      → X.num_rows prob ≡ 0
      → X.num_cols prob ≡ 0
      → IsKept S infinity X rows (initial sat prob next)
  unfolding initial find_col find_row
  initial-IsKept sat prob next no_rows no_cols = record {
    valid = record {
      injective = λ i j col e e'. ground (arith);
      columns = λ id col e. absurd (ground (arith));
      lower_size = sym no_cols;
      upper_size = sym no_cols;
      rows = λ id row truth e. absurd (ground (arith));
      sense_size = sym no_rows;
      rhs_size = sym no_rows;
      from_row_size = sym no_rows;
    };
    numbered = no_cols;
    mirror = refl;
    columns = tt;
    rows_of = λ v truth row e. absurd (ground (arith));
  }

  -- In every phase but two, every state of the SAT solver that `Assert`, `CheckSat` of both solvers
  -- and learning reach from an empty linear problem keeps that problem in order: columns are
  -- numbered as they were added and known both ways, every index stays in range, and every row is
  -- that of a theory literal that the abstractor keeps, with coefficients, sense and right side
  -- that admit just the points that satisfy the literal, relaxed where it is strict. The libraries
  -- keep their documented laws, over ordered numbers.
  pub Reachable-IsKept :
      (sat : Z) (prob : P) (next : ℕ) (s : Solver Q P Z)
      → X.num_rows prob ≡ 0
      → X.num_cols prob ≡ 0
      → Reachable S infinity entire X O L I difference phase sat prob next s
      → IsKept S infinity X rows s
  Reachable-IsKept sat prob next _ no_rows no_cols start =
      initial-IsKept sat prob next no_rows no_cols
  Reachable-IsKept sat prob next _ no_rows no_cols (by_formula {s} {t} r naive f e) =
      add_formula-Keeps ordered affine infinity law problem L I difference expand phase one naive f
        s t e (Reachable-IsKept sat prob next s no_rows no_cols r)
  Reachable-IsKept sat prob next _ no_rows no_cols (by_learned {s} {t} r ls e) =
      add_learned_clause-Keeps ordered affine infinity law problem L I difference expand phase one
        ls s t e (Reachable-IsKept sat prob next s no_rows no_cols r)
  Reachable-IsKept sat prob next _ no_rows no_cols (by_check {s} {t} r box m e) =
      check_sat-Keeps ordered infinity problem L I box s t m e
        (Reachable-IsKept sat prob next s no_rows no_cols r)
  Reachable-IsKept sat prob next _ no_rows no_cols (by_theory {s} r box ls st st' v p e) =
      let h = Reachable-IsKept sat prob next s no_rows no_cols r in
      replaced S infinity problem s.abstractor.var_to_formula s.linear p s.linear.lower
        s.linear.upper h
        (check_theory-same S infinity entire shared phase box ls s.linear.prob p s.linear.lower
          s.linear.upper s.linear.from_col st st' v e)
        refl refl
