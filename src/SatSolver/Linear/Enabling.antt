-- ===== src/SatSolver/Linear/Enabling.antt =====
-- `EnableLinearLiteral` and `ResetLinearProblem` keep the rows those of their literals, and enable
-- no more than the literals that are given.
use dlinear.Base.{
  ℕ, Bool, true, ◌≡◌, refl, sym, ◌∙◌, subst, Option, some, List, length, ◌&&◌, if◌then◌else◌,
  Bool-cases, Option-cases, inl, inr, arith,
}
use dlinear.Symbolic.Syntax.{Variable, Formula, Expression, constant, variable}
use dlinear.Symbolic.Meaning.{Structure, Env}
use dlinear.PredicateAbstractor.{find_formula}
use dlinear.Box.{get_elem?, set}
use dlinear.SatSolver.Linear.{
  Soplex, Linear, sets_lower, sets_upper, is_equal_or_whatever, is_greater_or_whatever,
  is_less_or_whatever, BoundType, bound_l, bound_u, bound_b, find_col, find_row, range_of, operands,
  is_simple_bound, set_var_bound, set_on, set_simple, enable_simple_bound, enable_linear_literal,
  too_large,
}
use dlinear.SatSolver.Linear.Enable.{relaxed}
use dlinear.SatSolver.Linear.Columns.{length-set}
use dlinear.SatSolver.Linear.Problem.{
  Row, IsProblem, dot, in_range, satisfies_rows, satisfies_rows-set_range,
}
use dlinear.SatSolver.Linear.Affine.{Follows}
use dlinear.SatSolver.Linear.SameRows.{SameRows-equal, SameRows-change_range, replaced}
use dlinear.SatSolver.Linear.Represents.{RowOf, Represents}

module _ {Q P : Type 0} where
  -- The second problem is the first with other bounds.
  abbrev pub Rebounded : Linear Q P → Linear Q P → Type 0
  Rebounded l l' =
      (lower : List Q) × (upper : List Q) × (l' ≡ record l { lower = lower; upper = upper })
      × (length lower ≡ length l.lower)
      × (length upper ≡ length l.upper)

module _ {Q P : Type 0} (S : Structure Q) (infinity : Q) (X : Soplex Q P) where
  set_var_bound-Rebounded :
      (v : Variable) (t : BoundType) (c : Q) (l l' : Linear Q P)
      → set_var_bound S infinity X v t c l ≡ some l'
      → Rebounded l l'
  unfolding set_var_bound
  set_var_bound-Rebounded v t c l l' h = elim (Option-cases (find_col v.id l.to_col)) [
    | inl e ↦ absurd (ground (arith))
    | inr (col, e) ↦ elim (Bool-cases (too_large S infinity X c)) [
      | inl big ↦ absurd (ground (arith))
      | inr small ↦ elim (Option-cases (get_elem? l.lower col)) [
        | inl e1 ↦ absurd (ground (arith))
        | inr (lb, e1) ↦ elim (Option-cases (get_elem? l.upper col)) [
          | inl e2 ↦ absurd (ground (arith))
          | inr (ub, e2) ↦
              let lower = set l.lower col (if sets_lower t && S.less lb c then c else lb) in
              let upper = set l.upper col (if sets_upper t && S.less c ub then c else ub) in
              (lower, upper, ground (arith), length-set l.lower col _, length-set l.upper col _)
        ]
      ]
    ]
  ]

  set_on-Rebounded :
      (d e : Expression Q) (t u : BoundType) (l l' : Linear Q P)
      → set_on S infinity X d e t u l ≡ some l'
      → Rebounded l l'
  unfolding set_on
  set_on-Rebounded (variable v) (constant c) t u l l' h = set_var_bound-Rebounded v t c l l' h
  set_on-Rebounded (constant c) (variable v) t u l l' h = set_var_bound-Rebounded v u c l l' h
  set_on-Rebounded _ _ t u l l' h = absurd (ground (arith))

  set_simple-Rebounded :
      (f : Formula Q) (t u : BoundType) (l l' : Linear Q P)
      → set_simple S infinity X f t u l ≡ some l'
      → Rebounded l l'
  unfolding set_simple
  set_simple-Rebounded f t u l l' h = elim (Option-cases (operands f)) [
    | inl e ↦ absurd (ground (arith))
    | inr ((lhs, rhs), e) ↦ set_on-Rebounded lhs rhs t u l l' (ground (arith))
  ]

  unchanged : (l l' : Linear Q P) → l' ≡ l → Rebounded l l'
  unchanged l l' e = (l.lower, l.upper, e, refl, refl)

  pub enable_simple_bound-Rebounded :
      (f : Formula Q) (truth : Bool) (l l' : Linear Q P)
      → enable_simple_bound S infinity X f truth l ≡ some l'
      → Rebounded l l'
  unfolding enable_simple_bound
  enable_simple_bound-Rebounded f truth l l' h = elim (Bool-cases (is_equal_or_whatever f truth)) [
    | inl e ↦ set_simple-Rebounded f bound_b bound_b l l' (ground (arith))
    | inr e ↦ elim (Bool-cases (is_greater_or_whatever f truth)) [
      | inl e1 ↦ set_simple-Rebounded f bound_l bound_u l l' (ground (arith))
      | inr e1 ↦ elim (Bool-cases (is_less_or_whatever f truth)) [
        | inl e2 ↦ set_simple-Rebounded f bound_u bound_l l l' (ground (arith))
        | inr e2 ↦ unchanged l l' (ground (arith))
      ]
    ]
  ]

module _ {Q P : Type 0} (S : Structure Q) (infinity : Q) {X : Soplex Q P} {rows : P → List (Row Q)}
    (prob : IsProblem X rows) (formulas : List (Variable × Formula Q)) where
  rebounded :
      (l l' : Linear Q P)
      → Represents S infinity X rows formulas l
      → Rebounded l l'
      → Represents S infinity X rows formulas l'
  rebounded l l' h (lower, upper, e, low, up) =
      subst (Represents S infinity X rows formulas) (sym e) (
        replaced S infinity prob formulas l l.prob lower upper h
          (SameRows-equal X rows l.prob l.prob refl refl) low up)

  ranged :
      (l : Linear Q P) (row : ℕ) (lo hi : Q)
      → Represents S infinity X rows formulas l
      → Represents S infinity X rows formulas (record l { prob = X.change_range row lo hi l.prob })
  ranged l row lo hi h =
      replaced S infinity prob formulas l (X.change_range row lo hi l.prob) l.lower l.upper h
        (SameRows-change_range prob row lo hi l.prob) refl refl

  pub enable_linear_literal-Represents :
      (v : Variable) (truth : Bool) (theory : Option (Formula Q)) (l l' : Linear Q P)
      → Represents S infinity X rows formulas l
      → enable_linear_literal S infinity X v truth theory l ≡ some l'
      → Represents S infinity X rows formulas l'
  unfolding enable_linear_literal
  enable_linear_literal-Represents v truth theory l l' h e =
      elim (Option-cases (find_row v.id truth l.to_row)) [
        | inr (row, e1) ↦ elim (Option-cases (get_elem? l.sense row)) [
          | inl e2 ↦ absurd (ground (arith))
          | inr (sense, e2) ↦ elim (Option-cases (get_elem? l.rhs row)) [
            | inl e3 ↦ absurd (ground (arith))
            | inr (r, e3) ↦
                let (lo, hi) = range_of S infinity X sense r in
                subst (Represents S infinity X rows formulas) (ground (arith))
                  (ranged l row lo hi h)
          ]
        ]
        | inl e1 ↦ elim (Option-cases theory) [
          | inl e2 ↦ subst (Represents S infinity X rows formulas) (ground (arith)) h
          | inr (f, e2) ↦ elim (Bool-cases (is_simple_bound f)) [
            | inl simple ↦
                rebounded l l' h
                  (enable_simple_bound-Rebounded S infinity X f truth l l' (ground (arith)))
            | inr other ↦ subst (Represents S infinity X rows formulas) (ground (arith)) h
          ]
        ]
      ]

  Rebounded-satisfies :
      (l l' : Linear Q P) (y : ℕ → Q)
      → Rebounded l l'
      → satisfies_rows S infinity y (rows l.prob) ≡ true
      → satisfies_rows S infinity y (rows l'.prob) ≡ true
  Rebounded-satisfies l l' y (lower, upper, same, _, _) w =
      subst (λ k. satisfies_rows S infinity y (rows k.prob) ≡ true) (sym same) w

  -- The range of the row is set, which the numbers keep to.
  range_satisfies :
      (l l' : Linear Q P) (row : ℕ) (y : ℕ → Q) (f : Formula Q) (truth : Bool)
      (r : RowOf S infinity X rows l f truth row)
      → X.change_range row
          (range_of S infinity X r.sense r.right).0
          (range_of S infinity X r.sense r.right).1
          l.prob
        ≡ l'.prob
      → in_range S infinity
          (range_of S infinity X r.sense r.right).0
          (range_of S infinity X r.sense r.right).1
          (dot S y r.body.coeffs)
        ≡ true
      → satisfies_rows S infinity y (rows l.prob) ≡ true
      → satisfies_rows S infinity y (rows l'.prob) ≡ true
  range_satisfies l l' row y f truth r changed inside w =
      let range = range_of S infinity X r.sense r.right in
      let kept =
        satisfies_rows-set_range S infinity y row range.0 range.1 (rows l.prob) r.body r.body_at
          inside w in
      subst (λ p. satisfies_rows S infinity y (rows p) ≡ true) changed
        (subst (λ rs. satisfies_rows S infinity y rs ≡ true)
          (sym (prob.rows-change_range row range.0 range.1 l.prob)) kept)

  -- Numbers of the columns that satisfied the rows, and come from a point that satisfies the
  -- literal, satisfy the rows afterwards.
  pub enable_linear_literal-satisfies :
      (v : Variable) (truth : Bool) (l l' : Linear Q P) (env : Env Q) (y : ℕ → Q)
      → Represents S infinity X rows formulas l
      → Follows env y l.to_col
      → ((f : Formula Q) → find_formula v formulas ≡ some f → relaxed S env f truth ≡ true)
      → enable_linear_literal S infinity X v truth (find_formula v formulas) l ≡ some l'
      → satisfies_rows S infinity y (rows l.prob) ≡ true
      → satisfies_rows S infinity y (rows l'.prob) ≡ true
  unfolding enable_linear_literal
  enable_linear_literal-satisfies v truth l l' env y h follows agrees e w =
      elim (Option-cases (find_row v.id truth l.to_row)) [
        | inr (row, e1) ↦
            let (f, kept, r) = h.rows_of v truth row e1 in
            range_satisfies l l' row y f truth r (ground (arith, r.sense_at, r.right_at))
              (r.means env y follows ∙ agrees f kept) w
        | inl e1 ↦ elim (Option-cases (find_formula v formulas)) [
          | inl e2 ↦
              let same : l ≡ l' = ground (arith) in
              subst (λ k. satisfies_rows S infinity y (rows k.prob) ≡ true) same w
          | inr (f, e2) ↦ elim (Bool-cases (is_simple_bound f)) [
            | inl simple ↦
                Rebounded-satisfies l l' y
                  (enable_simple_bound-Rebounded S infinity X f truth l l' (ground (arith))) w
            | inr other ↦
                let same : l ≡ l' = ground (arith) in
                subst (λ k. satisfies_rows S infinity y (rows k.prob) ≡ true) same w
          ]
        ]
      ]
