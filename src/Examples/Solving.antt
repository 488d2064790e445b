-- ===== src/Examples/Solving.antt =====
-- A linear problem of one column, and clauses of two variables.
use dlinear.Base.{
  ℕ, ◌+◌, ◌≡◌, ◌↔◌, refl, subst, true, false, some, List, [], ◌∷◌, All, arith, ℤ, pos,
}
use dlinear.Symbolic.Syntax.{
  Variable, continuous, boolean, Expression, constant, variable, addition, no_term, term, Formula,
  prop, disj, gt, nil, cons,
}
use dlinear.Symbolic.Meaning.{Env, holds, value_of}
use dlinear.Symbolic.Library.{Library}
use dlinear.PredicateAbstractor.{find_formula}
use dlinear.Symbolic.Plain.{plain}
use dlinear.Box.{Box, at, index, index_from, resize, set, get_elem?}
use dlinear.Scoped.Table as Table
use dlinear.SatSolver.Linear.{
  Soplex, Linear, find_col, find_row, set_var_bound, enable_linear_literal, enable_simple_bound,
  set_simple, set_on, is_simple_bound, sense_g, is_equal_or_whatever, is_greater_or_whatever,
  set_var_coef, reset_linear_problem, reset_columns, clear_ranges, add_linear_variables,
  add_linear_variable, new_column,
}
use dlinear.SatSolver.Linear.Rows.{
  sense_of, add_row, row_of, add_terms, append_row, add_linear_literal,
}
use dlinear.SatSolver.Linear.Bounds.{WithinBounds, IsInjective}
use dlinear.SatSolver.Linear.Enable.{relaxed, enable_linear_literal-WithinBounds}
use dlinear.SatSolver.Linear.Columns.{IsSoplex, IsValid}
use dlinear.SatSolver.Linear.Shape.{add_linear_literal-IsValid}
use dlinear.SatSolver.Clauses.{
  update_lookup, begin_clause, end_clause, keep_required, is_required, count, insert, remove,
  assigned, member, get_main_active_literals,
}
use dlinear.SatSolver.Clauses.Store.{add_clause, update_all}
use dlinear.SatSolver.Solver.{
  Picosat, Solver, satisfiable, do_add_clause, add_literals, add_literal, add_signed, check_sat,
  collect,
}
use dlinear.SatSolver.Solver.Stored.{literals_of, do_add_clause-stored}
use dlinear.SatSolver.Solver.Sound.{Agrees, check_sat-sound}
use dlinear.Examples.Numbers.{
  Small, minus_two, minus_one, nought, plus_one, plus_two, small, small-IsOrdered,
}

-- A problem that keeps only its sizes: rows and columns.
abbrev sizes : Soplex Small (ℕ × ℕ)
sizes = record {
  num_rows = λ p. p.0;
  num_cols = λ p. p.1;
  clear_basis = λ p. p;
  add_row = λ a cs b p. (p.0 + 1, p.1);
  add_col = λ a cs b c p. (p.0, p.1 + 1);
  change_range = λ i a b p. p;
  change_bounds = λ i a b p. p;
}

sizes-IsSoplex : IsSoplex sizes
sizes-IsSoplex = record {
  num_rows-add_row = λ a b cs p. refl;
  num_cols-add_row = λ a b cs p. refl;
  num_rows-add_col = λ a b c cs p. refl;
  num_cols-add_col = λ a b c cs p. refl;
}

abbrev x : Variable
x = record { id = 7; type = continuous }

-- The variable that stands for the formula.
abbrev atom : Variable
atom = record { id = 9; type = boolean }

abbrev linear : Linear Small (ℕ × ℕ)
linear = record {
  prob = (0, 1);
  lower = minus_two ∷ [];
  upper = plus_two ∷ [];
  to_col = (7, 0) ∷ [];
  from_col = (0, x) ∷ [];
  to_row = [];
  from_row = [];
  rhs = [];
  sense = [];
}

abbrev bounded : Linear Small (ℕ × ℕ)
bounded = record linear { lower = nought ∷ [] }

abbrev bound : Formula Small
bound = gt (variable x) (constant nought)

linear-IsInjective : IsInjective linear.to_col
unfolding find_col
linear-IsInjective i j col h k = ground (arith)

enables : enable_linear_literal small plus_two sizes atom true (some bound) linear ≡ some bounded
unfolding enable_linear_literal enable_simple_bound set_simple set_on set_var_bound find_row
    find_col is_simple_bound get_elem? set small
enables = refl

abbrev env : Env Small
env = record { truth = λ i. false; value = λ i. plus_one }

enable_linear_literal-WithinBounds_example :
    WithinBounds small env bounded
    ↔ (WithinBounds small env linear × (relaxed small env bound true ≡ true))
unfolding find_row is_simple_bound
enable_linear_literal-WithinBounds_example =
    enable_linear_literal-WithinBounds small-IsOrdered plus_two sizes atom bound true linear bounded
      env linear-IsInjective refl refl enables

linear-IsValid : IsValid sizes linear
unfolding find_col find_row
linear-IsValid = record {
  injective = linear-IsInjective;
  columns = λ id col h. ground (arith);
  lower_size = refl;
  upper_size = refl;
  rows = λ id row truth h. ground (arith);
  sense_size = refl;
  rhs_size = refl;
  from_row_size = refl;
}

abbrev y : Variable
y = record { id = 8; type = continuous }

-- `x > y`, with its difference.
abbrev pair : Formula Small
pair = gt (variable x) (variable y)

abbrev difference : Expression Small → Expression Small → Expression Small
difference d e = addition nought (term (variable x) plus_one (term (variable y) minus_one no_term))

abbrev two_columns : Linear Small (ℕ × ℕ)
two_columns = record {
  prob = (1, 2);
  lower = minus_two ∷ minus_two ∷ [];
  upper = plus_two ∷ plus_two ∷ [];
  to_col = (8, 1) ∷ (7, 0) ∷ [];
  from_col = (1, y) ∷ (0, x) ∷ [];
  to_row = ((9, true), 0) ∷ [];
  from_row = (atom, true) ∷ [];
  rhs = nought ∷ [];
  sense = sense_g ∷ [];
}

adds :
    add_linear_literal small plus_two sizes difference
      (λ f. x ∷ y ∷ [])
      1
      atom
      true
      (some pair)
      linear
    ≡ some two_columns
unfolding add_linear_literal add_linear_variables add_linear_variable new_column find_col find_row
    sense_of is_simple_bound is_equal_or_whatever is_greater_or_whatever add_row row_of add_terms
    set_var_coef append_row resize set small
adds = refl

add_linear_literal-IsValid_example : IsValid sizes two_columns
add_linear_literal-IsValid_example =
    add_linear_literal-IsValid small plus_two sizes-IsSoplex difference (λ f. x ∷ y ∷ []) 1 atom
      true (some pair) linear two_columns linear-IsValid adds

-- A SAT solver that makes every variable true.
abbrev optimist : Picosat ℕ
optimist = record {
  inc_max_var = λ n. (n + 1, n + 1);
  add = λ i n. n;
  variables = λ n. n;
  sat = λ n. (satisfiable, n);
  deref = λ n i. some true;
  deref_partial = λ n i. some true;
}

abbrev library : Library Small
library = record plain { free_variables = λ f. x ∷ [] }

abbrev solver : Solver Small (ℕ × ℕ) ℕ
solver = record {
  sat = 1;
  abstractor = record {
    var_to_formula = (atom, bound) ∷ [];
    formula_to_var = (bound, atom) ∷ [];
    next = 10;
  };
  to_sat_var = record { actions = []; stack = []; map = (9, 1) ∷ [] };
  to_sym_var = record { actions = []; stack = []; map = (1, atom) ∷ [] };
  clauses = record {
    main_clauses_copy = [];
    learned_clause_lits = [];
    main_clause_lookup = λ k. [];
    cur_clause_start = 0;
  };
  cnf_variables = record { actions = []; stack = []; set = [] };
  linear = linear;
  has_picosat_pop_used = false;
}

abbrev clause : Formula Small
clause = disj (cons (prop atom) nil)

abbrev with_clause : Solver Small (ℕ × ℕ) ℕ
with_clause = record solver { clauses = add_clause (pos 1 ∷ []) solver.clauses }

stores :
    do_add_clause small plus_two sizes library optimist difference 1 clause solver
    ≡ some with_clause
unfolding do_add_clause add_literals add_literal add_signed Table.at Table.find add_clause
    update_all begin_clause end_clause update_lookup find_formula add_linear_literal
    add_linear_variables add_linear_variable find_col find_row sense_of is_simple_bound
    is_equal_or_whatever is_greater_or_whatever small
stores = refl

do_add_clause-stored_example :
    (is : List ℤ) × (literals_of {Q = Small} solver.to_sat_var (cons (prop atom) nil) ≡ some is)
    × (with_clause.clauses ≡ add_clause is solver.clauses)
do_add_clause-stored_example =
    do_add_clause-stored small plus_two sizes library optimist difference 1 clause solver
      with_clause stores

abbrev box : Box Small
box = record { variables = x ∷ []; values = record { lb = minus_two; ub = plus_two } ∷ [] }

abbrev answered : Solver Small (ℕ × ℕ) ℕ
answered = record with_clause { linear = bounded }

finds :
    check_sat small plus_two sizes library optimist box with_clause
    ≡ some (some ([], (atom, true) ∷ []), answered)
unfolding check_sat collect Table.at Table.find find_formula get_main_active_literals keep_required
    is_required count member assigned insert remove reset_linear_problem reset_columns clear_ranges
    at index index_from add_clause update_all begin_clause end_clause update_lookup
    enable_linear_literal enable_simple_bound set_simple set_on set_var_bound find_row find_col
    is_simple_bound get_elem? set small
finds = refl

agrees : All (Agrees small env with_clause) ((atom, true) ∷ [])
unfolding holds value_of small find_formula
agrees = (
  λ f h. let same : bound ≡ f = ground (arith) in subst (λ g. holds small env g ≡ true) same refl,
  tt,
)

starts : WithinBounds small env (reset_linear_problem small plus_two sizes box with_clause.linear)
unfolding reset_linear_problem reset_columns at index index_from get_elem? set find_col small
starts i col h = ground (arith)

check_sat-sound_example : WithinBounds small env bounded
check_sat-sound_example =
    check_sat-sound small-IsOrdered plus_two sizes library optimist box with_clause answered []
      ((atom, true) ∷ []) env linear-IsInjective finds agrees starts
