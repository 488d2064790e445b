-- ===== src/SatSolver/Linear/Enforcing.antt =====
-- An enabled row holds its literal: a point that satisfies the problem satisfies the literal.
use dlinear.Base.{
  ℕ, Bool, true, ◌≡◌, ◌⊎◌, refl, sym, ap, ◌∙◌, subst, none, some, List, Bool-cases, Option-cases,
  inl, inr, arith,
}
use dlinear.Symbolic.Syntax.{Variable, Formula, eq, neq, gt, geq, lt, leq}
use dlinear.Symbolic.Meaning.{Structure, IsOrdered, Env}
use dlinear.PredicateAbstractor.{find_formula}
use dlinear.SatSolver.Linear.{
  Soplex, Linear, find_row, range_of, is_simple_bound, is_equal_or_whatever, is_greater_or_whatever,
  is_less_or_whatever, enable_linear_literal,
}
use dlinear.SatSolver.Linear.Rows.{sense_of}
use dlinear.SatSolver.Linear.Bounds.{WithinBounds, IsInjective}
use dlinear.SatSolver.Linear.Enable.{relaxed, enable_linear_literal-WithinBounds}
use dlinear.SatSolver.Linear.Problem.{Row, IsProblem}
use dlinear.SatSolver.Linear.Represents.{Represents}
use dlinear.SatSolver.Linear.Enabling.{Rebounded, enable_simple_bound-Rebounded}
use dlinear.SatSolver.Linear.OnRow.{OnRow, Covered, rebodied, OnRow-change_range, OnRow-self}

module _ {Q P : Type 0} where
  Rebounded-to_row : (l l' : Linear Q P) → Rebounded l l' → l'.to_row ≡ l.to_row
  Rebounded-to_row l l' (lower, upper, same, _, _) = ap (λ k. k.to_row) same

module _ {Q P : Type 0} {S : Structure Q} (ordered : IsOrdered S) (infinity : Q) {X : Soplex Q P}
    {rows : P → List (Row Q)} (prob : IsProblem X rows)
    (formulas : List (Variable × Formula Q)) where
  -- Bounds only become tighter.
  pub enable_linear_literal-tightened :
      (v : Variable) (truth : Bool) (l l' : Linear Q P) (env : Env Q)
      → IsInjective l.to_col
      → Represents S infinity X rows formulas l
      → enable_linear_literal S infinity X v truth (find_formula v formulas) l ≡ some l'
      → WithinBounds S env l'
      → WithinBounds S env l
  unfolding enable_linear_literal
  enable_linear_literal-tightened v truth l l' env injective h e w =
      elim (Option-cases (find_row v.id truth l.to_row)) [
        | inr (row, e1) ↦
            let (f, kept, r) = h.rows_of v truth row e1 in
            let (lo, hi) = range_of S infinity X r.sense r.right in
            let same : record l { prob = X.change_range row lo hi l.prob } ≡ l' =
              ground (arith, r.sense_at, r.right_at) in
            subst (WithinBounds S env) (sym same) w
        | inl e1 ↦ elim (Option-cases (find_formula v formulas)) [
          | inl e2 ↦ let same : l ≡ l' = ground (arith) in subst (WithinBounds S env) (sym same) w
          | inr (f, e2) ↦ elim (Bool-cases (is_simple_bound f)) [
            | inl simple ↦
                ((enable_linear_literal-WithinBounds ordered infinity X v f truth l l' env injective
                    e1 simple
                    (ap (λ t. enable_linear_literal S infinity X v truth t l) (sym e2) ∙ e)).0
                  w).0
            | inr other ↦
                let same : l ≡ l' = ground (arith) in subst (WithinBounds S env) (sym same) w
          ]
        ]
      ]

  Rebounded-OnRow :
      (l l' : Linear Q P) (f : Formula Q) (truth : Bool) (row : ℕ)
      → Rebounded l l'
      → OnRow S infinity X rows l f truth row
      → OnRow S infinity X rows l' f truth row
  Rebounded-OnRow l l' f truth row (lower, upper, same, _, _) on =
      subst (λ k. OnRow S infinity X rows k f truth row) (sym same)
        (rebodied infinity prob l l.prob lower upper f truth row on.row_of.body on on.row_of.body_at
          refl on.lo on.hi)

  pub enable_linear_literal-OnRow :
      (v : Variable) (t truth : Bool) (l l' : Linear Q P) (f : Formula Q) (row : ℕ)
      → Represents S infinity X rows formulas l
      → enable_linear_literal S infinity X v t (find_formula v formulas) l ≡ some l'
      → OnRow S infinity X rows l f truth row
      → OnRow S infinity X rows l' f truth row
  unfolding enable_linear_literal
  enable_linear_literal-OnRow v t truth l l' f row h e on =
      elim (Option-cases (find_row v.id t l.to_row)) [
        | inr (i, e1) ↦
            let (g, kept, r) = h.rows_of v t i e1 in
            subst (λ k. OnRow S infinity X rows k f truth row)
              (ground (arith, r.sense_at, r.right_at))
              (OnRow-change_range infinity prob l f g truth t row i r on)
        | inl e1 ↦ elim (Option-cases (find_formula v formulas)) [
          | inl e2 ↦ subst (λ k. OnRow S infinity X rows k f truth row) (ground (arith)) on
          | inr (g, e2) ↦ elim (Bool-cases (is_simple_bound g)) [
            | inl simple ↦
                Rebounded-OnRow l l' f truth row
                  (enable_simple_bound-Rebounded S infinity X g t l l' (ground (arith))) on
            | inr other ↦ subst (λ k. OnRow S infinity X rows k f truth row) (ground (arith)) on
          ]
        ]
      ]

  -- The problem holds the literal: by an enabled row, or by its bounds.
  abbrev pub Holds : Linear Q P → Formula Q → Bool → Type 0
  Holds l f truth =
      ((row : ℕ) × OnRow S infinity X rows l f truth row)
      ⊎ ((env : Env Q) → WithinBounds S env l → relaxed S env f truth ≡ true)

  -- A literal that restricts no side is no restriction when it is relaxed.
  unsided-relaxed :
      (f : Formula Q) (truth : Bool) (env : Env Q)
      → sense_of S infinity X f truth ≡ none
      → relaxed S env f truth ≡ true
  unfolding sense_of relaxed is_equal_or_whatever is_greater_or_whatever is_less_or_whatever
  unsided-relaxed (eq d e) truth env h = ground (arith)
  unsided-relaxed (neq d e) truth env h = ground (arith)
  unsided-relaxed (gt d e) truth env h = ground (arith)
  unsided-relaxed (geq d e) truth env h = ground (arith)
  unsided-relaxed (lt d e) truth env h = ground (arith)
  unsided-relaxed (leq d e) truth env h = ground (arith)
  unsided-relaxed _ truth env h = refl

  pub enable_linear_literal-Holds :
      (v : Variable) (truth : Bool) (l l' : Linear Q P) (f : Formula Q)
      → Represents S infinity X rows formulas l
      → find_formula v formulas ≡ some f
      → Covered S infinity X rows l v truth f
      → enable_linear_literal S infinity X v truth (find_formula v formulas) l ≡ some l'
      → Holds l' f truth
  unfolding enable_linear_literal
  enable_linear_literal-Holds v truth l l' f h kept covered e =
      elim (Option-cases (find_row v.id truth l.to_row)) [
        | inr (row, e1) ↦
            let (g, kept', r) = h.rows_of v truth row e1 in
            let same : g ≡ f = ground (arith) in
            let (lo, hi) = range_of S infinity X r.sense r.right in
            let l1 : Linear Q P = record l { prob = X.change_range row lo hi l.prob } in
            let moved : l1 ≡ l' = ground (arith, r.sense_at, r.right_at) in
            inl (
              row,
              subst (λ k. OnRow S infinity X rows k f truth row) moved
                  (subst (λ k. OnRow S infinity X rows l1 k truth row) same
                    (OnRow-self infinity prob l g truth row r)),
            )
        | inl e1 ↦ elim covered [
          | inl (row, there) ↦ absurd (ground (arith))
          | inr (inl simple) ↦ inr (λ env w.
              ((enable_linear_literal-WithinBounds ordered infinity X v f truth l l' env
                  h.valid.injective e1 simple
                  (ap (λ t. enable_linear_literal S infinity X v truth t l) (sym kept) ∙ e)).0
                w).1)
          | inr (inr unsided) ↦ inr (λ env w. unsided-relaxed f truth env unsided)
        ]
      ]

  pub Holds-kept :
      (v : Variable) (t truth : Bool) (l l' : Linear Q P) (f : Formula Q)
      → Represents S infinity X rows formulas l
      → enable_linear_literal S infinity X v t (find_formula v formulas) l ≡ some l'
      → Holds l f truth
      → Holds l' f truth
  Holds-kept v t truth l l' f h e (inl (row, on)) =
      inl (row, enable_linear_literal-OnRow v t truth l l' f row h e on)
  Holds-kept v t truth l l' f h e (inr bound) =
      inr
        (λ env w. bound env (enable_linear_literal-tightened v t l l' env h.valid.injective h e w))

  -- No row moves.
  pub enable_linear_literal-to_row :
      (v : Variable) (truth : Bool) (l l' : Linear Q P)
      → Represents S infinity X rows formulas l
      → enable_linear_literal S infinity X v truth (find_formula v formulas) l ≡ some l'
      → l'.to_row ≡ l.to_row
  unfolding enable_linear_literal
  enable_linear_literal-to_row v truth l l' h e =
      elim (Option-cases (find_row v.id truth l.to_row)) [
        | inr (row, e1) ↦
            let (f, kept, r) = h.rows_of v truth row e1 in ground (arith, r.sense_at, r.right_at)
        | inl e1 ↦ elim (Option-cases (find_formula v formulas)) [
          | inl e2 ↦ ground (arith)
          | inr (f, e2) ↦ elim (Bool-cases (is_simple_bound f)) [
            | inl simple ↦
                Rebounded-to_row l l'
                  (enable_simple_bound-Rebounded S infinity X f truth l l' (ground (arith)))
            | inr other ↦ ground (arith)
          ]
        ]
      ]
