-- ===== src/TheorySolver/Laws.antt =====
-- What the class relies on of SoPlex.
use dlinear.Base.{ℕ, Bool, true, false, ◌≡◌, ◌≢◌, ◌⊎◌, List, length}
use dlinear.Symbolic.Meaning.{Structure}
use dlinear.TheorySolver.{infeasible, Optimizer}
use dlinear.TheorySolver.Bounds.{Within}

-- What SoPlex promises of a problem whose bounds were just changed: a solution of a problem that is
-- not infeasible satisfies the bounds and the rows, and an infeasible problem has none. `rows` tells
-- whether a point satisfies the rows.
pub record IsOptimizer {Q P : Type 0} (S : Structure Q) (O : Optimizer Q P)
    (rows : P → List Q → Bool) : Type 0 where
  pub solution :
      (lower upper x0 x : List Q) (p : P)
      → (O.optimize (O.change_upper upper (O.change_lower lower p))).0 ≢ infeasible
      → O.get_primal x0 (O.optimize (O.change_upper upper (O.change_lower lower p))).1 ≡ (true, x)
      → Within S lower upper x × (rows p x ≡ true)
  pub no_solution :
      (lower upper x : List Q) (p : P)
      → (O.optimize (O.change_upper upper (O.change_lower lower p))).0 ≡ infeasible
      → length x ≡ O.num_cols p
      → Within S lower upper x
      → rows p x ≡ false

-- `simplex_sat_phase` is one or two.
abbrev pub IsPhase : ℕ → Type 0
IsPhase phase = (phase ≡ 1) ⊎ (phase ≡ 2)
