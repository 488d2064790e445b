-- ===== src/Examples/Theory.antt =====
-- A linear problem of one column and one row, which every point satisfies, or none.
use dlinear.Base.{
  ℕ, zero, suc, Bool, true, false, not, ◌≡◌, ◌≢◌, refl, some, List, [], ◌∷◌, length, All,
  if◌then◌else◌, ltb, inr, arith, ◌==◌,
}
use dlinear.Symbolic.Syntax.{Variable, continuous}
use dlinear.Literal.{Literal, Literals, insert_literal, insert_literals, less_literal}
use dlinear.Literal.Sets.{all_true}
use dlinear.Box.Intervals.{Interval, point}
use dlinear.Box.{Box, get_elem?, set, index, index_from, has_variable, assign_at, add, resize}
use dlinear.TheorySolver.{
  Status, optimal, infeasible, Optimizer, TheorySolver, delta_sat, unsat, add_missing, check_bounds,
  copy_solution, no_objective, judge, solve, check_sat,
}
use dlinear.TheorySolver.Bounds.{Within, IsPoint, Copied}
use dlinear.TheorySolver.Laws.{IsOptimizer}
use dlinear.TheorySolver.Solution.{
  NoObjective, check_sat-IsPoint, check_sat-solution, check_sat-NoObjective,
}
use dlinear.TheorySolver.Refuted.{check_sat-unsat, check_sat-explained}
use dlinear.Examples.Numbers.{
  Small, minus_two, nought, plus_one, plus_two, rank, small, small-IsOrdered,
}

abbrev Problem : Type 0
Problem = Bool × List Small × List Small

-- The status of the first column, and its lower bound as the solution.
abbrev status_of : List Small → List Small → Status
status_of [] upper = infeasible
status_of (l ∷ ls) [] = infeasible
status_of (l ∷ ls) (u ∷ us) = if ltb (rank u) (rank l) then infeasible else optimal

abbrev solution_of : List Small → List Small → Bool × List Small
solution_of x [] = (false, x)
solution_of x (l ∷ ls) = (true, l ∷ [])

abbrev optimizer : Optimizer Small Problem
optimizer = record {
  num_rows = λ p. 1;
  num_cols = λ p. 1;
  change_lower = λ l p. (p.0, l, p.2);
  change_upper = λ u p. (p.0, p.1, u);
  optimize = λ p. (if p.0 then status_of p.1 p.2 else infeasible, p);
  get_primal = λ x p. solution_of x p.1;
  get_obj = λ p. plus_one ∷ [];
}

abbrev rows : Problem → List Small → Bool
rows p x = p.0

one_column :
    (lower upper x0 x : List Small)
    → status_of lower upper ≢ infeasible
    → solution_of x0 lower ≡ (true, x)
    → Within small lower upper x
unfolding small get_elem?
one_column [] upper x0 x h e col a found = absurd (h refl)
one_column (l ∷ ls) [] x0 x h e col a found = absurd (h refl)
one_column (l ∷ ls) (u ∷ us) x0 [] h e col a found = ground (arith)
one_column (l ∷ ls) (u ∷ us) x0 (b ∷ bs) h e zero a found = ground (arith)
one_column (l ∷ ls) (u ∷ us) x0 (b ∷ []) h e (suc col) a found = ground (arith)
one_column (l ∷ ls) (u ∷ us) x0 (b ∷ c ∷ cs) h e (suc col) a found = ground (arith)

no_column :
    (lower upper x : List Small)
    → status_of lower upper ≡ infeasible
    → length x ≡ 1
    → Within small lower upper x
    → true ≡ false
unfolding small get_elem?
no_column lower upper [] h e within = ground (arith)
no_column [] upper (a ∷ x) h e within = let w = within 0 a refl in ground (arith)
no_column (l ∷ ls) [] (a ∷ x) h e within = let w = within 0 a refl in ground (arith)
no_column (l ∷ ls) (u ∷ us) (a ∷ x) h e within = let w = within 0 a refl in ground (arith)

solution_right :
    (t : Bool) (lower upper x0 x : List Small)
    → (if t then status_of lower upper else infeasible) ≢ infeasible
    → solution_of x0 lower ≡ (true, x)
    → Within small lower upper x × (t ≡ true)
solution_right true lower upper x0 x h e = (one_column lower upper x0 x h e, refl)
solution_right false lower upper x0 x h e = absurd (h refl)

no_solution_right :
    (t : Bool) (lower upper x : List Small)
    → (if t then status_of lower upper else infeasible) ≡ infeasible
    → length x ≡ 1
    → Within small lower upper x
    → t ≡ false
no_solution_right true lower upper x h e within = no_column lower upper x h e within
no_solution_right false lower upper x h e within = refl

optimizer-IsOptimizer : IsOptimizer small optimizer rows
optimizer-IsOptimizer = record {
  solution = λ lower upper x0 x p h e. solution_right p.0 lower upper x0 x h e;
  no_solution = λ lower upper x p h e within. no_solution_right p.0 lower upper x h e within;
}

abbrev v : Variable
v = record { id = 0; type = continuous }

abbrev p : Variable
p = record { id = 1; type = continuous }

abbrev entire : Interval Small
entire = record { lb = minus_two; ub = plus_two }

abbrev box : Box Small
box = record { variables = []; values = entire ∷ [] }

abbrev start : TheorySolver Small
start = record { model = box; explanation = [] }

abbrev columns : List (ℕ × Variable)
columns = (0, v) ∷ []

abbrev assertions : Literals
assertions = (p, true) ∷ (v, false) ∷ (p, true) ∷ []

abbrev problem : Problem
problem = (true, [], [])

abbrev solved : TheorySolver Small
solved = record {
  model = record { variables = v ∷ []; values = point nought ∷ [] };
  explanation = [];
}

abbrev lower : List Small
lower = nought ∷ []

abbrev upper : List Small
upper = plus_one ∷ []

run_solved :
    check_sat small plus_two entire optimizer 2 box assertions problem lower upper columns start
    ≡ some (delta_sat, (true, lower, upper), solved)
unfolding check_sat add_missing add resize has_variable index index_from check_bounds get_elem?
    solve judge no_objective copy_solution assign_at set small
run_solved = refl

low : small.less small.zero (small.minus small.zero plus_two) ≡ false
unfolding small
low = refl

high : small.less plus_two small.zero ≡ false
unfolding small
high = refl

check_sat-IsPoint_example : All (IsPoint small lower upper solved.model) columns
check_sat-IsPoint_example =
    check_sat-IsPoint small-IsOrdered plus_two entire optimizer-IsOptimizer 2 box assertions problem
      (true, lower, upper) lower upper columns start solved low high (inr refl) (omega arith)
      (tt, tt) run_solved

check_sat-solution_example :
    (x : List Small) × Within small lower upper x
    × (rows problem x ≡ true)
    × All (Copied x solved.model) columns
check_sat-solution_example =
    check_sat-solution small-IsOrdered plus_two entire optimizer-IsOptimizer 2 box assertions
      problem (true, lower, upper) lower upper columns start solved low high (inr refl)
      (omega arith) (tt, tt) refl run_solved

check_sat-NoObjective_example :
    (x : List Small) × Within small lower upper x
    × (rows problem x ≡ true)
    × All (Copied x solved.model) columns
    × NoObjective small-IsOrdered plus_two entire optimizer-IsOptimizer 2 1 (plus_one ∷ []) x
check_sat-NoObjective_example =
    check_sat-NoObjective small-IsOrdered plus_two entire optimizer-IsOptimizer 2 box assertions
      problem (true, lower, upper) lower upper columns start solved low high refl (omega arith)
      (tt, tt) refl run_solved

abbrev refuted : TheorySolver Small
refuted = record {
  model = record { variables = v ∷ []; values = entire ∷ [] };
  explanation = (v, false) ∷ (p, true) ∷ [];
}

-- The bounds the other way round.
run_refuted :
    check_sat small plus_two entire optimizer 1 box assertions problem upper lower columns start
    ≡ some (unsat, problem, refuted)
unfolding check_sat add_missing add resize has_variable index index_from check_bounds get_elem?
    insert_literals insert_literal less_literal small
run_refuted = refl

abbrev truth : Bool → Literal → Bool
truth a l = if l.0.id == 0 then not l.1 else a

check_sat-explained_example :
    all_true truth false refuted.explanation ≡ all_true truth false assertions
check_sat-explained_example =
    check_sat-explained small-IsOrdered plus_two entire optimizer-IsOptimizer 1 truth box assertions
      problem problem upper lower columns start refuted false (λ a u w s h. ground (arith))
      run_refuted

-- A row that no point satisfies.
abbrev stuck : Problem
stuck = (false, [], [])

abbrev stuck_result : TheorySolver Small
stuck_result = record {
  model = record { variables = v ∷ []; values = entire ∷ [] };
  explanation = (v, false) ∷ (p, true) ∷ [];
}

run_stuck :
    check_sat small plus_two entire optimizer 1 box assertions stuck lower upper columns start
    ≡ some (unsat, (false, lower, upper), stuck_result)
unfolding check_sat add_missing add resize has_variable index index_from check_bounds get_elem?
    insert_literals insert_literal less_literal solve judge small
run_stuck = refl

within : Within small lower upper (nought ∷ [])
unfolding get_elem? small
within zero a h = ground (arith)
within (suc col) a h = ground (arith)

check_sat-unsat_example : rows stuck (nought ∷ []) ≡ false
check_sat-unsat_example =
    check_sat-unsat small-IsOrdered plus_two entire optimizer-IsOptimizer 1 box assertions stuck
      (false, lower, upper) lower upper (nought ∷ []) columns start stuck_result refl
      (omega arith, tt) run_stuck refl within
