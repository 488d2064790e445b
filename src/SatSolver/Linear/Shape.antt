-- ===== src/SatSolver/Linear/Shape.antt =====
-- The columns and rows of the linear problem stay in step with the maps and vectors beside it.
use dlinear.Base.{
  ℕ, ◌+◌, ◌≤◌, Bool, true, false, ◌≡◌, ◌⊎◌, refl, sym, ap, ◌∙◌, subst, Option, none, some, List, [],
  ◌∷◌, ◌++◌, length, length-append, if◌then◌else◌, ◌==◌, Bool-cases, Option-cases, inl, inr, arith,
}
use dlinear.Symbolic.Syntax.{Variable, Variables, Expression, Formula}
use dlinear.Symbolic.Meaning.{Structure}
use dlinear.Box.{resize, set}
use dlinear.SatSolver.Linear.{
  Soplex, Linear, Sense, find_col, find_row, is_simple_bound, operands, add_linear_variables,
  create_artificials, too_large, minus_infinity,
}
use dlinear.SatSolver.Linear.Rows.{sense_of, row_of, append_row, add_row, add_linear_literal}
use dlinear.SatSolver.Linear.Bounds.{IsInjective}
use dlinear.SatSolver.Linear.Columns.{
  length-resize, length-set, add_linear_variables-IsValid, IsSoplex, IsValid,
}

module _ {Q P : Type 0} (S : Structure Q) (infinity : Q) {X : Soplex Q P} (law : IsSoplex X) where
  length-grown_twice :
      (l : Linear Q P) (row : ℕ)
      → let l' = create_artificials S infinity X row l in
        (length l'.lower ≡ X.num_cols l'.prob)
        × (length l'.upper ≡ X.num_cols l'.prob)
        × (X.num_cols l'.prob ≡ X.num_cols l.prob + 2)
        × (X.num_rows l'.prob ≡ X.num_rows l.prob)
  unfolding create_artificials
  length-grown_twice l row =
      let n = X.num_cols l.prob in
      let first = X.add_col S.one ((row, S.one) ∷ []) infinity S.zero l.prob in
      let minus_one = S.minus S.zero S.one in
      let grown = resize S.zero (n + 2) l.upper in
      let col1 = law.num_cols-add_col S.one infinity S.zero ((row, S.one) ∷ []) l.prob in
      let col2 = law.num_cols-add_col S.one infinity S.zero ((row, minus_one) ∷ []) first in
      let row1 = law.num_rows-add_col S.one infinity S.zero ((row, S.one) ∷ []) l.prob in
      let row2 = law.num_rows-add_col S.one infinity S.zero ((row, minus_one) ∷ []) first in
      let cols : X.num_cols (X.add_col S.one ((row, minus_one) ∷ []) infinity S.zero first)
          ≡ n + 2 =
        omega (arith, col1, col2) in
      let low = length-resize S.zero (n + 2) l.lower in
      let up =
        length-set (set grown n infinity) (n + 1) infinity
        ∙ length-set grown n infinity
        ∙ length-resize S.zero (n + 2) l.upper in
      (omega (arith, low, cols), omega (arith, up, cols), omega (arith, cols), row2 ∙ row1)

  find_row-new :
      (v : Variable) (t : Bool) (n : ℕ) (l : Linear Q P) (id row : ℕ) (truth : Bool)
      → find_row id truth (((v.id, t), n) ∷ l.to_row) ≡ some row
      → (row ≡ n) ⊎ (find_row id truth l.to_row ≡ some row)
  unfolding find_row
  find_row-new v t n l id row truth e = ground (arith)

  -- A problem with one row more, and at least the columns that were there.
  one_row_more :
      (v : Variable) (truth : Bool) (sense : Sense) (rhs : Q) (l l2 : Linear Q P)
      → IsValid X l
      → l2.to_col ≡ l.to_col
      → length l2.lower ≡ X.num_cols l2.prob
      → length l2.upper ≡ X.num_cols l2.prob
      → X.num_cols l.prob ≤ X.num_cols l2.prob
      → X.num_rows l2.prob ≡ X.num_rows l.prob + 1
      → l2.sense ≡ l.sense ++ sense ∷ []
      → l2.rhs ≡ l.rhs ++ rhs ∷ []
      → IsValid X (record l2 {
        to_row = ((v.id, truth), X.num_rows l.prob) ∷ l.to_row;
        from_row = l.from_row ++ (v, truth) ∷ [];
      })
  one_row_more v truth sense rhs l l2 h same low up cols rows senses rights = record {
    injective = subst IsInjective (sym same) h.injective;
    columns = λ id col e.
        let below = h.columns id col (sym (ap (find_col id) same) ∙ e) in
        omega (arith, below, cols);
    lower_size = low;
    upper_size = up;
    rows = λ id row t e.
        ground
          (arith, rows, find_row-new v truth (X.num_rows l.prob) l id row t e, h.rows id row t);
    sense_size =
        rw (senses) (omega (arith, length-append l.sense (sense ∷ []), h.sense_size, rows));
    rhs_size = rw (rights) (omega (arith, length-append l.rhs (rhs ∷ []), h.rhs_size, rows));
    from_row_size =
        omega (arith, length-append l.from_row ((v, truth) ∷ []), h.from_row_size, rows);
  }

  pub append_row-IsValid :
      (v : Variable) (truth : Bool) (sense : Sense) (coeffs : List (ℕ × Q)) (rhs : Q) (phase : ℕ)
      (l : Linear Q P)
      → IsValid X l
      → IsValid X (append_row S infinity X v truth sense coeffs rhs phase l)
  unfolding append_row create_artificials
  append_row-IsValid v truth sense coeffs rhs phase l h =
      let row = X.num_rows l.prob in
      let l1 : Linear Q P = record l {
        sense = l.sense ++ sense ∷ [];
        rhs = l.rhs ++ rhs ∷ [];
        prob = X.add_row (minus_infinity S infinity X) coeffs infinity l.prob;
      } in
      let rows1 = law.num_rows-add_row (minus_infinity S infinity X) infinity coeffs l.prob in
      let cols1 = law.num_cols-add_row (minus_infinity S infinity X) infinity coeffs l.prob in
      elim (phase == 2)
        as (λ b. IsValid X (record (if b then create_artificials S infinity X row l1 else l1) {
          to_row = ((v.id, truth), row) ∷ l.to_row;
          from_row = l.from_row ++ (v, truth) ∷ [];
        })) [
          | true ↦
              let (low, up, cols, rows) = length-grown_twice l1 row in
              one_row_more v truth sense rhs l (create_artificials S infinity X row l1) h refl low
                up (omega (arith, cols, cols1)) (rows ∙ rows1) refl refl
          | false ↦
              one_row_more v truth sense rhs l l1 h refl (h.lower_size ∙ sym cols1)
                (h.upper_size ∙ sym cols1) (omega (arith, cols1)) rows1 refl refl
        ]

  add_row-IsValid :
      (v : Variable) (truth : Bool) (sense : Sense) (d : Expression Q) (phase : ℕ)
      (l l' : Linear Q P)
      → IsValid X l
      → add_row S infinity X v truth sense d phase l ≡ some l'
      → IsValid X l'
  unfolding add_row
  add_row-IsValid v truth sense d phase l l' h e = elim (Option-cases (row_of S infinity X l d)) [
    | inl e1 ↦ ground (arith)
    | inr ((coeffs, rhs), e1) ↦ elim (Bool-cases (too_large S infinity X rhs)) [
      | inl big ↦ ground (arith)
      | inr small ↦
          subst (IsValid X) (ground (arith)) (append_row-IsValid v truth sense coeffs rhs phase l h)
    ]
  ]

  -- When `AddLinearLiteral` succeeds, on whichever branch, it keeps the columns and rows in step:
  -- different variables have different columns, every column and row in the maps exists, and the
  -- vectors of bounds, senses and right sides have the sizes of the problem.
  pub add_linear_literal-IsValid :
      (difference : Expression Q → Expression Q → Expression Q) (free : Formula Q → Variables)
      (phase : ℕ) (v : Variable) (truth : Bool) (theory : Option (Formula Q)) (l l' : Linear Q P)
      → IsValid X l
      → add_linear_literal S infinity X difference free phase v truth theory l ≡ some l'
      → IsValid X l'
  unfolding add_linear_literal
  add_linear_literal-IsValid difference free phase v truth none l l' h e =
      subst (IsValid X) (ground (arith)) h
  add_linear_literal-IsValid difference free phase v truth (some f) l l' h e =
      let l1 = add_linear_variables S infinity X (free f) l in
      let h1 = add_linear_variables-IsValid S infinity law (free f) l h in
      elim (Option-cases (find_row v.id truth l.to_row)) [
        | inr (row, e1) ↦ subst (IsValid X) (ground (arith)) h
        | inl e1 ↦ elim (Option-cases (sense_of S infinity X f truth)) [
          | inl e2 ↦ subst (IsValid X) {x = l1} (ground (arith)) h1
          | inr (sense, e2) ↦ elim (Bool-cases (is_simple_bound f)) [
            | inl simple ↦ subst (IsValid X) {x = l1} (ground (arith)) h1
            | inr other ↦ elim (Option-cases (operands f)) [
              | inl e3 ↦ ground (arith)
              | inr ((lhs, rhs), e3) ↦
                  add_row-IsValid v truth sense (difference lhs rhs) phase l1 l' h1 (ground (arith))
            ]
          ]
        ]
      ]
