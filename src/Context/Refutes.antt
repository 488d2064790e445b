-- ===== src/Context/Refutes.antt =====
-- A model of the SAT solver that the theory solver refutes has no point.
use dlinear.Base.{
  ℕ, ◌<◌, Bool, true, ◌≡◌, refl, sym, ap, ◌∙◌, subst, none, some, List, [], ◌∷◌, ◌++◌, ◌==◌, All,
  All-imp, length, length-append, Bool-cases, inl, inr, arith,
}
use dlinear.Symbolic.Syntax.{Expression}
use dlinear.Symbolic.Meaning.{Structure, IsOrdered, Env}
use dlinear.Symbolic.Library.{Library}
use dlinear.Literal.{Literals}
use dlinear.Box.Intervals.{Interval}
use dlinear.Box.{Box, get_elem?}
use dlinear.SatSolver.Linear.{Soplex, Linear, find_col, reset_linear_problem}
use dlinear.SatSolver.Linear.Bounds.{WithinBounds}
use dlinear.SatSolver.Linear.Enable.{relaxed-holds}
use dlinear.SatSolver.Linear.Columns.{IsSoplex}
use dlinear.SatSolver.Linear.Problem.{Row, IsProblem, satisfies_rows}
use dlinear.SatSolver.Linear.Affine.{IsAffine, Follows}
use dlinear.SatSolver.Linear.Ranges.{IsDifference}
use dlinear.SatSolver.Linear.Represents.{
  IsNumbered, get_elem?-append, get_elem?-last, get_elem?-snoc,
}
use dlinear.SatSolver.Solver.{Picosat, Solver, check_sat}
use dlinear.SatSolver.Solver.Sound.{Agrees, check_sat-sound}
use dlinear.SatSolver.Solver.Checked.{check_sat-Keeps, check_sat-rows, check_sat-to_col}
use dlinear.TheorySolver.{Optimizer, TheorySolver, unsat, check_sat as check_theory}
use dlinear.TheorySolver.Bounds.{admits, Within}
use dlinear.TheorySolver.Laws.{IsOptimizer}
use dlinear.TheorySolver.Refuted.{check_sat-unsat}
use dlinear.Context.Shared.{IsShared}
use dlinear.Context.Reach.{Reachable, Reachable-IsKept}

later :
    (j c id col : ℕ) (m : List (ℕ × ℕ))
    → find_col j m ≡ none
    → find_col id m ≡ some col
    → find_col id ((j, c) ∷ m) ≡ some col
unfolding find_col
later j c id col m fresh e = elim (Bool-cases (id == j)) [
  | inr other ↦ ground (arith)
  | inl met ↦
      let same : id ≡ j = ground (arith) in absurd (ground (arith, ap (λ i. find_col i m) same))
]

module _ {Q : Type 0} where
  -- The numbers of the columns, in their order.
  abbrev pub point : Env Q → List (ℕ × ℕ) → List Q
  point env [] = []
  point env ((id, col) ∷ m) = point env m ++ env.value id ∷ []

  length-point :
      (env : Env Q) (n : ℕ) (m : List (ℕ × ℕ)) → IsNumbered n m → length (point env m) ≡ n
  length-point env n [] h = sym h
  length-point env n ((id, col) ∷ m) h =
      omega
        (arith, length-append (point env m) (env.value id ∷ []), length-point env col m h.2, h.0)

  point-at :
      (env : Env Q) (n : ℕ) (m : List (ℕ × ℕ)) (id col : ℕ)
      → IsNumbered n m
      → find_col id m ≡ some col
      → get_elem? (point env m) col ≡ some (env.value id)
  unfolding find_col
  point-at env n [] id col h e = absurd (ground (arith))
  point-at env n ((j, c) ∷ m) id col h e = elim (Bool-cases (id == j)) [
    | inl met ↦
        let here : c ≡ col = ground (arith) in
        let same : j ≡ id = ground (arith) in
        get_elem?-last (point env m) (env.value j) col (length-point env c m h.2 ∙ here)
        ∙ ap (λ i. some (env.value i)) same
    | inr other ↦
        get_elem?-append (point env m) (env.value j ∷ []) col (env.value id)
          (point-at env c m id col h.2 (ground (arith)))
  ]

  -- Every number of the point is that of a variable with the column.
  point-from :
      (env : Env Q) (n : ℕ) (m : List (ℕ × ℕ)) (col : ℕ) (a : Q)
      → IsNumbered n m
      → get_elem? (point env m) col ≡ some a
      → (id : ℕ) × (find_col id m ≡ some col) × (env.value id ≡ a)
  unfolding find_col get_elem?
  point-from env n [] col a h e = absurd (ground (arith))
  point-from env n ((j, c) ∷ m) col a h e =
      elim (get_elem?-snoc (point env m) (env.value j) a col e) [
        | inr (at, same) ↦ (j, ground (arith, length-point env c m h.2), same)
        | inl e' ↦
            let (id, found, same) = point-from env c m col a h.2 e' in
            (id, later j c id col m h.1 found, same)
      ]

module _ {Q P : Type 0} (S : Structure Q) (infinity : Q) (rows : P → List (Row Q)) where
  -- The number of a column, and zero where there is none.
  abbrev pub number_at : List Q → ℕ → Q
  number_at x col = elim (get_elem? x col) [ none ↦ S.zero | some a ↦ a ]

  -- The point satisfies the rows of the problem.
  abbrev pub satisfies : P → List Q → Bool
  satisfies p x = satisfies_rows S infinity (number_at x) (rows p)

  pub Follows-point :
      (env : Env Q) (n : ℕ) (m : List (ℕ × ℕ))
      → IsNumbered n m
      → Follows env (number_at (point env m)) m
  Follows-point env n m h id col e = ground (arith, point-at env n m id col h e)

module _ {Q P Z : Type 0} {S : Structure Q} (ordered : IsOrdered S) (affine : IsAffine S)
    (infinity : Q) (entire : Interval Q) {X : Soplex Q P} {O : Optimizer Q P} (law : IsSoplex X)
    {rows : P → List (Row Q)} (problem : IsProblem X rows) (shared : IsShared X O rows)
    (optimizer : IsOptimizer S O (satisfies S infinity rows)) (L : Library Q) (I : Picosat Z)
    (difference : Expression Q → Expression Q → Expression Q)
    (expand : IsDifference S difference) where
  Within-point :
      (l : Linear Q P) (env : Env Q)
      → IsNumbered (X.num_cols l.prob) l.to_col
      → WithinBounds S env l
      → Within S l.lower l.upper (point env l.to_col)
  Within-point l env h w col a e =
      let (id, found, same) = point-from env (X.num_cols l.prob) l.to_col col a h e in
      subst (λ b. admits S l.lower l.upper col b ≡ true) same (w id col found)

  -- From any state of the SAT solver that `Assert`, `CheckSat` of both solvers and learning reach
  -- in phase one, from an empty linear problem: where the SAT solver's `CheckSat` gives a model and
  -- the theory solver's then answers that there is no solution, no point within the bounds that the
  -- box gives satisfies all theory literals of the model. The libraries keep their documented laws,
  -- over ordered numbers.
  pub refuted_model-empty :
      (sat : Z) (prob : P) (next : ℕ) (s t : Solver Q P Z) (box box' : Box Q)
      (bools theory : Literals) (st st' : TheorySolver Q) (p : P) (env : Env Q)
      → X.num_rows prob ≡ 0
      → X.num_cols prob ≡ 0
      → Reachable S infinity entire X O L I difference 1 sat prob next s
      → check_sat S infinity X L I box s ≡ some (some (bools, theory), t)
      → check_theory S infinity entire O 1 box' theory t.linear.prob t.linear.lower t.linear.upper
          t.linear.from_col st
        ≡ some (unsat, p, st')
      → WithinBounds S env (reset_linear_problem S infinity X box s.linear)
      → ¬ All (Agrees S env s) theory
  refuted_model-empty sat prob next s t box box' bools theory st st' p env no_rows no_cols reached
        found refuted within agrees =
      let h =
        Reachable-IsKept ordered affine infinity entire law problem shared L I difference expand 1
          refl sat prob next s no_rows no_cols reached in
      let k = check_sat-Keeps ordered infinity problem L I box s t (some (bools, theory)) found h in
      let x = point env t.linear.to_col in
      let inside =
        check_sat-sound ordered infinity X L I box s t bools theory env h.valid.injective found
          agrees within in
      let moved = check_sat-to_col ordered infinity problem L I box s t (bools, theory) found h in
      let follows =
        Follows-point S infinity rows env (X.num_cols t.linear.prob) t.linear.to_col k.numbered in
      let met =
        check_sat-rows ordered infinity problem L I box s t bools theory env
          (number_at S infinity rows x) found h (subst (Follows env _) moved follows)
          (All-imp (λ v holds f e. relaxed-holds ordered infinity X env f v.1 (holds f e)) theory
            agrees) in
      let size = length-point env (X.num_cols t.linear.prob) t.linear.to_col k.numbered in
      let cols = shared.same_cols t.linear.prob in
      let unmet =
        check_sat-unsat ordered infinity entire optimizer 1 box' theory t.linear.prob p
          t.linear.lower t.linear.upper x t.linear.from_col st st' refl
          (subst (λ n. All (λ c. c.0 < n) t.linear.from_col) (sym cols) k.columns) refuted
          (size ∙ sym cols) (Within-point t.linear env k.numbered inside) in
      ground (arith, met, unmet)
