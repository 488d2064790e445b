-- ===== src/SatSolver/Linear/Rows.antt =====
-- dreal/solver/soplex_sat_solver.cc: the rows of the linear problem, `AddLinearLiteral`.
use dlinear.Base.{ℕ, Bool, Option, none, some, List, [], ◌∷◌, ◌++◌, if◌then◌else◌, ◌==◌}
use dlinear.Symbolic.Syntax.{
  Variable, Variables, Expression, constant, variable, addition, multiplication, Terms, no_term,
  term, no_factor, factor, Formula,
}
use dlinear.Symbolic.Meaning.{Structure}
use dlinear.SatSolver.Linear.{
  Soplex, Linear, Sense, sense_e, sense_g, sense_l, find_row, operands, is_simple_bound,
  is_equal_or_whatever, is_greater_or_whatever, is_less_or_whatever, is_not_equal_or_whatever,
  minus_infinity, too_large, set_var_coef, add_linear_variables, create_artificials,
}

module _ {Q P : Type 0} (S : Structure Q) (infinity : Q) (X : Soplex Q P) where
  unfoldable pub add_terms : Linear Q P → Terms Q → List (ℕ × Q) → Option (List (ℕ × Q))
  unfolding set_var_coef
  add_terms l no_term coeffs = some coeffs
  add_terms l (term (variable v) c ts) coeffs = elim (set_var_coef S infinity X l v c coeffs) [
    | none ↦ none
    | some coeffs' ↦ add_terms l ts coeffs'
  ]
  add_terms l (term _ c ts) coeffs = none

  abbrev pub with_rhs : Option (List (ℕ × Q)) → Q → Option (List (ℕ × Q) × Q)
  with_rhs none rhs = none
  with_rhs (some coeffs) rhs = some (coeffs, rhs)

  -- The coefficients and the right side of the row for `expr`.
  unfoldable pub row_of : Linear Q P → Expression Q → Option (List (ℕ × Q) × Q)
  unfolding set_var_coef add_terms
  row_of l (constant c) = some ([], S.minus S.zero c)
  row_of l (variable v) = with_rhs (set_var_coef S infinity X l v S.one []) S.zero
  row_of l (multiplication c (factor (variable v) (constant e) no_factor)) =
      if S.equal e S.one then with_rhs (set_var_coef S infinity X l v c []) S.zero else none
  row_of l (multiplication c _) = none
  row_of l (addition c ts) = with_rhs (add_terms l ts []) (S.minus S.zero c)
  row_of l _ = none

  -- The sense of the row, where the literal has one.
  unfoldable pub sense_of : Formula Q → Bool → Option Sense
  unfolding is_equal_or_whatever is_greater_or_whatever is_less_or_whatever
  sense_of f truth =
      if is_equal_or_whatever f truth
      then some sense_e
      else if is_greater_or_whatever f truth
      then some sense_g
      else if is_less_or_whatever f truth
      then some sense_l
      else none

  -- The inactive row, with the vectors and maps that go along.
  unfoldable pub append_row :
      Variable → Bool → Sense → List (ℕ × Q) → Q → ℕ → Linear Q P → Linear Q P
  unfolding create_artificials
  append_row v truth sense coeffs rhs phase l =
      let row = X.num_rows l.prob in
      let l1 : Linear Q P = record l {
        sense = l.sense ++ sense ∷ [];
        rhs = l.rhs ++ rhs ∷ [];
        prob = X.add_row (minus_infinity S infinity X) coeffs infinity l.prob;
      } in
      let l2 = if phase == 2 then create_artificials S infinity X row l1 else l1 in
      record l2 {
        to_row = ((v.id, truth), row) ∷ l.to_row;
        from_row = l.from_row ++ (v, truth) ∷ [];
      }

  -- The new row: `difference` is `(lhs - rhs).Expand()`, and `phase` is `simplex_sat_phase`.
  unfoldable pub add_row :
      Variable → Bool → Sense → Expression Q → ℕ → Linear Q P → Option (Linear Q P)
  unfolding row_of append_row
  add_row v truth sense difference phase l = elim (row_of l difference) [
    | none ↦ none
    | some (coeffs, rhs) ↦
        if too_large S infinity X rhs
        then none
        else some (append_row v truth sense coeffs rhs phase l)
  ]

  unfoldable pub add_linear_literal :
      (Expression Q → Expression Q → Expression Q)
      → (Formula Q → Variables)
      → ℕ
      → Variable
      → Bool
      → Option (Formula Q)
      → Linear Q P
      → Option (Linear Q P)
  unfolding find_row add_linear_variables sense_of is_simple_bound is_not_equal_or_whatever add_row
  add_linear_literal difference free phase v truth theory l = elim theory [
    | none ↦ some l
    | some f ↦ elim (find_row v.id truth l.to_row) [
      | some row ↦ some l
      | none ↦
          let l1 = add_linear_variables S infinity X (free f) l in
          elim (sense_of f truth) [
            | none ↦ if is_not_equal_or_whatever f truth then some l1 else none
            | some sense ↦ if is_simple_bound f then some l1 else elim (operands f) [
              | none ↦ none
              | some (lhs, rhs) ↦ add_row v truth sense (difference lhs rhs) phase l1
            ]
          ]
    ]
  ]
