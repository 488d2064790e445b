-- ===== src/SatSolver/Linear.antt =====
-- dreal/solver/soplex_sat_solver.cc: the linear problem, its columns, rows and bounds. SoPlex is a
-- parameter. A call that throws, and an index out of range, returns `none`.
pub mod Bounds
pub mod Rows
pub mod Enable
pub mod Staying
pub mod Problem
pub mod Affine
pub mod Ranges
pub mod Represents
pub mod Columns
pub mod Shape
pub mod Adding
pub mod SameRows
pub mod Enabling
pub mod Resetting
pub mod OnRow
pub mod Enforcing
use dlinear.Base.{
  ℕ, zero, suc, ◌+◌, Bool, true, false, not, ◌||◌, ◌&&◌, Option, none, some, List, [], ◌∷◌, ◌++◌,
  if◌then◌else◌, ◌==◌,
}
use dlinear.Symbolic.Syntax.{
  Variable, Variables, Expression, constant, variable, addition, multiplication, Terms, no_term,
  term, no_factor, factor, Formula, eq, neq, gt, geq, lt, leq,
}
use dlinear.Symbolic.Meaning.{Structure}
use dlinear.Symbolic.Kinds.{is_constant, is_expression_variable}
use dlinear.Box.Intervals.{Interval}
use dlinear.Box.{Box, resize, set, get_elem?, at}

-- The calls of `soplex::SoPlex` on a problem of type `P`.
pub record Soplex (Q P : Type 0) : Type 0 where
  pub num_rows : P → ℕ
  pub num_cols : P → ℕ
  pub clear_basis : P → P
  -- Left side, coefficients, right side.
  pub add_row : Q → List (ℕ × Q) → Q → P → P
  -- Objective, coefficients, upper bound, lower bound.
  pub add_col : Q → List (ℕ × Q) → Q → Q → P → P
  pub change_range : ℕ → Q → Q → P → P
  pub change_bounds : ℕ → Q → Q → P → P

-- The characters 'E', 'G' and 'L' of `spx_sense_`.
pub data Sense : Type 0 where
  sense_e sense_g sense_l : Sense

-- The characters 'L', 'U' and 'B' of `SetSPXVarBound`.
pub data BoundType : Type 0 where
  bound_l bound_u bound_b : BoundType

pub record Linear (Q P : Type 0) : Type 0 where
  pub prob : P
  pub lower : List Q
  pub upper : List Q
  pub to_col : List (ℕ × ℕ)
  pub from_col : List (ℕ × Variable)
  pub to_row : List ((ℕ × Bool) × ℕ)
  pub from_row : List (Variable × Bool)
  pub rhs : List Q
  pub sense : List Sense

unfoldable pub find_col : ℕ → List (ℕ × ℕ) → Option ℕ
find_col id [] = none
find_col id ((j, col) ∷ m) = if id == j then some col else find_col id m

abbrev pub same_bool : Bool → Bool → Bool
same_bool true b = b
same_bool false b = not b

unfoldable pub find_row : ℕ → Bool → List ((ℕ × Bool) × ℕ) → Option ℕ
find_row id truth [] = none
find_row id truth (((j, t), row) ∷ m) =
    if (id == j) && same_bool truth t then some row else find_row id truth m

module _ {Q : Type 0} where
  -- `get_lhs_expression` and `get_rhs_expression`.
  abbrev pub operands : Formula Q → Option (Expression Q × Expression Q)
  operands (eq d e) = some (d, e)
  operands (neq d e) = some (d, e)
  operands (gt d e) = some (d, e)
  operands (geq d e) = some (d, e)
  operands (lt d e) = some (d, e)
  operands (leq d e) = some (d, e)
  operands _ = none

  unfoldable pub is_simple_bound : Formula Q → Bool
  is_simple_bound f = elim (operands f) [
    | none ↦ false
    | some (lhs, rhs) ↦
        (is_constant lhs && is_expression_variable rhs)
        || (is_expression_variable lhs && is_constant rhs)
  ]

  abbrev pub is_equal_to : Formula Q → Bool
  is_equal_to (eq d e) = true
  is_equal_to _ = false

  abbrev pub is_not_equal_to : Formula Q → Bool
  is_not_equal_to (neq d e) = true
  is_not_equal_to _ = false

  -- `is_greater_than` or `is_greater_than_or_equal_to`.
  abbrev pub is_greater : Formula Q → Bool
  is_greater (gt d e) = true
  is_greater (geq d e) = true
  is_greater _ = false

  abbrev pub is_less : Formula Q → Bool
  is_less (lt d e) = true
  is_less (leq d e) = true
  is_less _ = false

  unfoldable pub is_equal_or_whatever : Formula Q → Bool → Bool
  is_equal_or_whatever f truth = if truth then is_equal_to f else is_not_equal_to f

  unfoldable pub is_not_equal_or_whatever : Formula Q → Bool → Bool
  unfolding is_equal_or_whatever
  is_not_equal_or_whatever f truth = is_equal_or_whatever f (not truth)

  unfoldable pub is_greater_or_whatever : Formula Q → Bool → Bool
  is_greater_or_whatever f truth = if truth then is_greater f else is_less f

  unfoldable pub is_less_or_whatever : Formula Q → Bool → Bool
  unfolding is_greater_or_whatever
  is_less_or_whatever f truth = is_greater_or_whatever f (not truth)

-- Whether a bound of the type sets the lower, and the upper, side.
abbrev pub sets_lower : BoundType → Bool
sets_lower bound_u = false
sets_lower _ = true

abbrev pub sets_upper : BoundType → Bool
sets_upper bound_l = false
sets_upper _ = true

module _ {Q P : Type 0} (S : Structure Q) (infinity : Q) (X : Soplex Q P) where
  abbrev pub minus_infinity : Q
  minus_infinity = S.minus S.zero infinity

  -- `value <= -infinity || value >= infinity`.
  abbrev pub too_large : Q → Bool
  too_large value = not (S.less minus_infinity value) || not (S.less value infinity)

  unfoldable pub set_var_coef : Linear Q P → Variable → Q → List (ℕ × Q) → Option (List (ℕ × Q))
  unfolding find_col
  set_var_coef l v value coeffs = elim (find_col v.id l.to_col) [
    | none ↦ none
    | some col ↦ if too_large value then none else some (coeffs ++ (col, value) ∷ [])
  ]

  unfoldable pub set_var_bound : Variable → BoundType → Q → Linear Q P → Option (Linear Q P)
  unfolding find_col get_elem? set
  set_var_bound v type value l = elim (find_col v.id l.to_col) [
    | none ↦ none
    | some col ↦ if too_large value then none else elim (get_elem? l.lower col) [
      | none ↦ none
      | some lb ↦ elim (get_elem? l.upper col) [
        | none ↦ none
        | some ub ↦ some (record l {
          lower = set l.lower col (if sets_lower type && S.less lb value then value else lb);
          upper = set l.upper col (if sets_upper type && S.less value ub then value else ub);
        })
      ]
    ]
  ]

  -- The three `if`s that set a bound: one type for `variable op constant`, one for the mirror image.
  unfoldable pub set_on :
      Expression Q → Expression Q → BoundType → BoundType → Linear Q P → Option (Linear Q P)
  unfolding set_var_bound
  set_on (variable v) (constant c) left right l = set_var_bound v left c l
  set_on (constant c) (variable v) left right l = set_var_bound v right c l
  set_on _ _ left right l = none

  unfoldable pub set_simple : Formula Q → BoundType → BoundType → Linear Q P → Option (Linear Q P)
  unfolding set_on
  set_simple f left right l = elim (operands f) [
    | none ↦ none
    | some (lhs, rhs) ↦ set_on lhs rhs left right l
  ]

  -- The part of `EnableLinearLiteral` for a simple bound.
  unfoldable pub enable_simple_bound : Formula Q → Bool → Linear Q P → Option (Linear Q P)
  unfolding set_simple is_equal_or_whatever is_greater_or_whatever is_less_or_whatever
      is_not_equal_or_whatever
  enable_simple_bound f truth l =
      if is_equal_or_whatever f truth
      then set_simple f bound_b bound_b l
      else if is_greater_or_whatever f truth
      then set_simple f bound_l bound_u l
      else if is_less_or_whatever f truth
      then set_simple f bound_u bound_l l
      else if is_not_equal_or_whatever f truth
      then some l
      else none

  abbrev pub range_of : Sense → Q → Q × Q
  range_of sense_e rhs = (rhs, rhs)
  range_of sense_g rhs = (rhs, infinity)
  range_of sense_l rhs = (minus_infinity, rhs)

  -- `theory` is the formula that the abstractor keeps for the variable.
  unfoldable pub enable_linear_literal :
      Variable → Bool → Option (Formula Q) → Linear Q P → Option (Linear Q P)
  unfolding find_row enable_simple_bound is_simple_bound get_elem?
  enable_linear_literal v truth theory l = elim (find_row v.id truth l.to_row) [
    | some row ↦ elim (get_elem? l.sense row) [
      | none ↦ none
      | some sense ↦ elim (get_elem? l.rhs row) [
        | none ↦ none
        | some rhs ↦
            let (lo, hi) = range_of sense rhs in
            some (record l { prob = X.change_range row lo hi l.prob })
      ]
    ]
    | none ↦ elim theory [
      | none ↦ some l
      | some f ↦ if is_simple_bound f then enable_simple_bound f truth l else some l
    ]
  ]

  unfoldable pub clear_ranges : ℕ → P → P
  clear_ranges zero p = p
  clear_ranges (suc n) p = X.change_range n minus_infinity infinity (clear_ranges n p)

  -- The bounds that `ResetLinearProblem` gives to one column.
  abbrev pub reset_interval : Box Q → Variable → Interval Q
  reset_interval box v = elim (at box v) [
    | none ↦ record { lb = minus_infinity; ub = infinity }
    | some iv ↦ iv
  ]

  unfoldable pub reset_columns : Box Q → List (ℕ × Variable) → Linear Q P → Linear Q P
  unfolding set at
  reset_columns box [] l = l
  reset_columns box ((col, v) ∷ m) l =
      let iv = reset_interval box v in
      reset_columns box m (record l {
        lower = set l.lower col iv.lb;
        upper = set l.upper col iv.ub;
        prob = X.change_bounds col minus_infinity infinity l.prob;
      })

  unfoldable pub reset_linear_problem : Box Q → Linear Q P → Linear Q P
  unfolding clear_ranges reset_columns
  reset_linear_problem box l =
      let p = X.clear_basis l.prob in
      reset_columns box l.from_col (record l { prob = clear_ranges (X.num_rows p) p })

  -- The part of `AddLinearVariable` for a variable that has no column.
  unfoldable pub new_column : Variable → Linear Q P → Linear Q P
  unfolding resize set
  new_column v l =
      let col = X.num_cols l.prob in
      record l {
        lower = set (resize S.zero (col + 1) l.lower) col minus_infinity;
        upper = set (resize S.zero (col + 1) l.upper) col infinity;
        prob = X.add_col S.zero [] infinity minus_infinity l.prob;
        to_col = (v.id, col) ∷ l.to_col;
        from_col = (col, v) ∷ l.from_col;
      }

  unfoldable pub add_linear_variable : Variable → Linear Q P → Linear Q P
  unfolding find_col new_column
  add_linear_variable v l = elim (find_col v.id l.to_col) [ some col ↦ l | none ↦ new_column v l ]

  unfoldable pub add_linear_variables : Variables → Linear Q P → Linear Q P
  unfolding add_linear_variable
  add_linear_variables [] l = l
  add_linear_variables (v ∷ vs) l = add_linear_variables vs (add_linear_variable v l)

  unfoldable pub create_artificials : ℕ → Linear Q P → Linear Q P
  unfolding resize set
  create_artificials row l =
      let cols = X.num_cols l.prob in
      let upper = resize S.zero (cols + 2) l.upper in
      let first = X.add_col S.one ((row, S.one) ∷ []) infinity S.zero l.prob in
      record l {
        lower = resize S.zero (cols + 2) l.lower;
        upper = set (set upper cols infinity) (cols + 1) infinity;
        prob = X.add_col S.one ((row, S.minus S.zero S.one) ∷ []) infinity S.zero first;
      }
