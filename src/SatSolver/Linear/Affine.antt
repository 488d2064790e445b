-- ===== src/SatSolver/Linear/Affine.antt =====
-- The row that `AddLinearLiteral` makes of an expression stands for the expression.
use dlinear.Base.{
  ℕ, ◌≡◌, sym, ap, ap₂, ◌∙◌, some, List, [], ◌∷◌, ◌++◌, Bool-cases, Option-cases, inl, inr, arith,
}
use dlinear.Symbolic.Syntax.{
  Variable, Expression, constant, variable, addition, multiplication, unary, binary, if_then_else,
  uninterpreted, Terms, no_term, term, no_factor, factor,
}
use dlinear.Symbolic.Meaning.{Structure, IsOrdered, Env, value_of, sum_of, product_of}
use dlinear.SatSolver.Linear.{Soplex, Linear, find_col, set_var_coef, too_large}
use dlinear.SatSolver.Linear.Rows.{add_terms, row_of}
use dlinear.SatSolver.Linear.Problem.{dot}

-- The arithmetic of rational numbers that moving a term to the other side needs.
pub record IsAffine {Q : Type 0} (S : Structure Q) : Type 0 where
  pub plus_assoc : (a b c : Q) → S.plus (S.plus a b) c ≡ S.plus a (S.plus b c)
  pub plus_zero : (a : Q) → S.plus a S.zero ≡ a
  pub zero_plus : (a : Q) → S.plus S.zero a ≡ a
  pub times_one : (a : Q) → S.times a S.one ≡ a
  pub one_times : (a : Q) → S.times S.one a ≡ a
  pub pow_one : (a : Q) → S.pow a S.one ≡ a
  pub less_opposite : (a c : Q) → S.less a (S.minus S.zero c) ≡ S.less (S.plus c a) S.zero
  pub opposite_less : (a c : Q) → S.less (S.minus S.zero c) a ≡ S.less S.zero (S.plus c a)
  pub difference_less : (a b : Q) → S.less (S.minus a b) S.zero ≡ S.less a b
  pub less_difference : (a b : Q) → S.less S.zero (S.minus a b) ≡ S.less b a

module _ {Q : Type 0} where
  -- Every variable with a column has the number of its column.
  abbrev pub Follows : Env Q → (ℕ → Q) → List (ℕ × ℕ) → Type 0
  Follows env y m = (id col : ℕ) → find_col id m ≡ some col → y col ≡ env.value id

module _ {Q : Type 0} (S : Structure Q) where
  -- The two comparisons of the row with its right side are those of the expression with zero.
  unfoldable pub RowMeans : Env Q → (ℕ → Q) → Expression Q → List (ℕ × Q) → Q → Type 0
  RowMeans env y d cs rhs =
      (S.less (dot S y cs) rhs ≡ S.less (value_of S env d) S.zero)
      × (S.less rhs (dot S y cs) ≡ S.less S.zero (value_of S env d))

module _ {Q P : Type 0} {S : Structure Q} (ordered : IsOrdered S) (affine : IsAffine S)
    (infinity : Q) (X : Soplex Q P) where
  dot-append :
      (y : ℕ → Q) (cs ds : List (ℕ × Q)) → dot S y (cs ++ ds) ≡ S.plus (dot S y cs) (dot S y ds)
  unfolding dot
  dot-append y [] ds = sym (affine.zero_plus _)
  dot-append y ((col, c) ∷ cs) ds =
      ap (S.plus (S.times c (y col))) (dot-append y cs ds) ∙ sym (affine.plus_assoc _ _ _)

  dot-set_var_coef :
      (l : Linear Q P) (v : Variable) (c : Q) (cs ds : List (ℕ × Q)) (env : Env Q) (y : ℕ → Q)
      → set_var_coef S infinity X l v c cs ≡ some ds
      → Follows env y l.to_col
      → dot S y ds ≡ S.plus (dot S y cs) (S.times c (env.value v.id))
  unfolding set_var_coef dot
  dot-set_var_coef l v c cs ds env y h follows = elim (Option-cases (find_col v.id l.to_col)) [
    | inl e ↦ ground (arith)
    | inr (col, e) ↦ elim (Bool-cases (too_large S infinity X c)) [
      | inl big ↦ ground (arith)
      | inr small ↦
          let same : cs ++ (col, c) ∷ [] ≡ ds = ground (arith) in
          ap (dot S y) (sym same)
          ∙ dot-append y cs ((col, c) ∷ [])
          ∙ ap (S.plus (dot S y cs)) (affine.plus_zero _ ∙ ap (S.times c) (follows v.id col e))
    ]
  ]

  dot-add_terms :
      (l : Linear Q P) (ts : Terms Q) (cs ds : List (ℕ × Q)) (env : Env Q) (y : ℕ → Q)
      → add_terms S infinity X l ts cs ≡ some ds
      → Follows env y l.to_col
      → dot S y ds ≡ S.plus (dot S y cs) (sum_of S env ts)
  unfolding add_terms sum_of value_of
  dot-add_terms l no_term cs ds env y h follows =
      let same : cs ≡ ds = ground (arith) in ap (dot S y) (sym same) ∙ sym (affine.plus_zero _)
  dot-add_terms l (term (variable v) c ts) cs ds env y h follows =
      elim (Option-cases (set_var_coef S infinity X l v c cs)) [
        | inl e ↦ ground (arith)
        | inr (cs', e) ↦
            dot-add_terms l ts cs' ds env y (ground (arith)) follows
            ∙ ap (λ a. S.plus a (sum_of S env ts)) (dot-set_var_coef l v c cs cs' env y e follows)
            ∙ affine.plus_assoc _ _ _
      ]
  dot-add_terms l (term _ c ts) cs ds env y h follows = ground (arith)

  same_value :
      (env : Env Q) (y : ℕ → Q) (d : Expression Q) (cs : List (ℕ × Q)) (rhs : Q)
      → dot S y cs ≡ value_of S env d
      → S.zero ≡ rhs
      → RowMeans S env y d cs rhs
  unfolding RowMeans
  same_value env y d cs rhs same right = (ap₂ S.less same (sym right), ap₂ S.less (sym right) same)

  moved_constant :
      (env : Env Q) (y : ℕ → Q) (d : Expression Q) (cs : List (ℕ × Q)) (c rhs : Q)
      → S.plus c (dot S y cs) ≡ value_of S env d
      → S.minus S.zero c ≡ rhs
      → RowMeans S env y d cs rhs
  unfolding RowMeans
  moved_constant env y d cs c rhs same right = (
    ap (S.less (dot S y cs)) (sym right)
        ∙ affine.less_opposite _ c
        ∙ ap (λ a. S.less a S.zero) same,
    ap (λ r. S.less r (dot S y cs)) (sym right)
        ∙ affine.opposite_less _ c
        ∙ ap (S.less S.zero) same,
  )

  pub row_of-RowMeans :
      (l : Linear Q P) (d : Expression Q) (cs : List (ℕ × Q)) (rhs : Q) (env : Env Q) (y : ℕ → Q)
      → row_of S infinity X l d ≡ some (cs, rhs)
      → Follows env y l.to_col
      → RowMeans S env y d cs rhs
  unfolding row_of value_of product_of dot sum_of
  row_of-RowMeans l (constant c) cs rhs env y h follows =
      let same : ◌≡◌ {A = List (ℕ × Q)} [] cs = ground (arith) in
      moved_constant env y (constant c) cs c rhs
        (ap (λ ds. S.plus c (dot S y ds)) (sym same) ∙ affine.plus_zero c) (ground (arith))
  row_of-RowMeans l (variable v) cs rhs env y h follows =
      elim (Option-cases (set_var_coef S infinity X l v S.one [])) [
        | inl e ↦ ground (arith)
        | inr (ds, e) ↦
            let same : ds ≡ cs = ground (arith) in
            let value = dot-set_var_coef l v S.one [] ds env y e follows in
            same_value env y (variable v) cs rhs
              (ap (dot S y) (sym same) ∙ value ∙ affine.zero_plus _ ∙ affine.one_times _)
              (ground (arith))
      ]
  row_of-RowMeans l (addition c ts) cs rhs env y h follows =
      elim (Option-cases (add_terms S infinity X l ts [])) [
        | inl e ↦ ground (arith)
        | inr (ds, e) ↦
            let same : ds ≡ cs = ground (arith) in
            let value = dot-add_terms l ts [] ds env y e follows in
            moved_constant env y (addition c ts) cs c rhs
              (ap (S.plus c) (ap (dot S y) (sym same) ∙ value ∙ affine.zero_plus _))
              (ground (arith))
      ]
  row_of-RowMeans l (multiplication c (factor (variable v) (constant e) no_factor)) cs rhs env y h
        follows =
      elim (Bool-cases (S.equal e S.one)) [
        | inr power ↦ ground (arith)
        | inl linear ↦ elim (Option-cases (set_var_coef S infinity X l v c [])) [
          | inl k ↦ ground (arith)
          | inr (ds, k) ↦
              let same : ds ≡ cs = ground (arith) in
              let value = dot-set_var_coef l v c [] ds env y k follows in
              let plain : S.times (S.pow (env.value v.id) e) S.one ≡ env.value v.id =
                affine.times_one _
                ∙ ap (S.pow (env.value v.id)) (ordered.eq_of_equal e S.one linear)
                ∙ affine.pow_one _ in
              same_value env y (multiplication c (factor (variable v) (constant e) no_factor)) cs
                rhs
                (ap (dot S y) (sym same) ∙ value ∙ affine.zero_plus _ ∙ ap (S.times c) (sym plain))
                (ground (arith))
        ]
      ]
  row_of-RowMeans l (multiplication c _) cs rhs env y h follows = ground (arith)
  row_of-RowMeans l (unary op e) cs rhs env y h follows = ground (arith)
  row_of-RowMeans l (binary op d e) cs rhs env y h follows = ground (arith)
  row_of-RowMeans l (if_then_else f d e) cs rhs env y h follows = ground (arith)
  row_of-RowMeans l (uninterpreted n vs) cs rhs env y h follows = ground (arith)
