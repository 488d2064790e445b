-- ===== src/SatSolver/Linear/Columns.antt =====
-- A new column keeps the linear problem in step.
use dlinear.Base.{
  ℕ, zero, suc, ◌+◌, ◌<◌, Bool, ◌≡◌, ◌⊎◌, refl, sym, ◌∙◌, subst, some, List, [], ◌∷◌, length,
  Option-cases, inl, inr, arith,
}
use dlinear.Symbolic.Syntax.{Variable, Variables}
use dlinear.Symbolic.Meaning.{Structure}
use dlinear.Box.{resize, set}
use dlinear.SatSolver.Linear.{
  Soplex, Linear, find_col, find_row, new_column, add_linear_variable, add_linear_variables,
  minus_infinity,
}
use dlinear.SatSolver.Linear.Bounds.{IsInjective}

-- What SoPlex documents of the sizes of a problem.
pub record IsSoplex {Q P : Type 0} (X : Soplex Q P) : Type 0 where
  pub num_rows-add_row :
      (a b : Q) (cs : List (ℕ × Q)) (p : P) → X.num_rows (X.add_row a cs b p) ≡ X.num_rows p + 1
  pub num_cols-add_row :
      (a b : Q) (cs : List (ℕ × Q)) (p : P) → X.num_cols (X.add_row a cs b p) ≡ X.num_cols p
  pub num_rows-add_col :
      (a b c : Q) (cs : List (ℕ × Q)) (p : P) → X.num_rows (X.add_col a cs b c p) ≡ X.num_rows p
  pub num_cols-add_col :
      (a b c : Q) (cs : List (ℕ × Q)) (p : P) → X.num_cols (X.add_col a cs b c p) ≡ X.num_cols p + 1

module _ {Q P : Type 0} (X : Soplex Q P) where
  pub record IsValid (l : Linear Q P) : Type 0 where
    pub injective : IsInjective l.to_col
    pub columns : (id col : ℕ) → find_col id l.to_col ≡ some col → col < X.num_cols l.prob
    pub lower_size : length l.lower ≡ X.num_cols l.prob
    pub upper_size : length l.upper ≡ X.num_cols l.prob
    pub rows :
        (id row : ℕ) (truth : Bool)
        → find_row id truth l.to_row ≡ some row
        → row < X.num_rows l.prob
    pub sense_size : length l.sense ≡ X.num_rows l.prob
    pub rhs_size : length l.rhs ≡ X.num_rows l.prob
    pub from_row_size : length l.from_row ≡ X.num_rows l.prob

module _ {ℓ} {A : Type ℓ} where
  pub length-resize : (d : A) (n : ℕ) (xs : List A) → length (resize d n xs) ≡ n
  unfolding resize
  length-resize d zero xs = refl
  length-resize d (suc n) [] = omega (arith, length-resize d n [])
  length-resize d (suc n) (x ∷ xs) = omega (arith, length-resize d n xs)

  pub length-set : (xs : List A) (i : ℕ) (y : A) → length (set xs i y) ≡ length xs
  unfolding set
  length-set [] i y = refl
  length-set (x ∷ xs) zero y = refl
  length-set (x ∷ xs) (suc i) y = omega (arith, length-set xs i y)

  length-grown : (d y : A) (n : ℕ) (xs : List A) → length (set (resize d (n + 1) xs) n y) ≡ n + 1
  length-grown d y n xs =
      omega (arith, length-set (resize d (n + 1) xs) n y, length-resize d (n + 1) xs)

module _ {Q P : Type 0} (S : Structure Q) (infinity : Q) {X : Soplex Q P} (law : IsSoplex X) where
  find_col-new :
      (v : Variable) (l : Linear Q P) (id col : ℕ)
      → find_col id (new_column S infinity X v l).to_col ≡ some col
      → ((id ≡ v.id) × (col ≡ X.num_cols l.prob)) ⊎ (find_col id l.to_col ≡ some col)
  unfolding new_column find_col
  find_col-new v l id col e = ground (arith)

  pub new_column-IsValid :
      (v : Variable) (l : Linear Q P) → IsValid X l → IsValid X (new_column S infinity X v l)
  unfolding new_column
  new_column-IsValid v l h =
      let n = X.num_cols l.prob in
      let more = law.num_cols-add_col S.zero infinity (minus_infinity S infinity X) [] l.prob in
      let same = law.num_rows-add_col S.zero infinity (minus_infinity S infinity X) [] l.prob in
      let low = minus_infinity S infinity X in
      record {
        injective = λ i j col ei ej. ground (
          arith,
          find_col-new v l i col ei,
          find_col-new v l j col ej,
          h.injective i j col,
          h.columns i col,
          h.columns j col,
        );
        columns = λ id col e. ground (arith, more, find_col-new v l id col e, h.columns id col);
        lower_size = length-grown S.zero low n l.lower ∙ sym more;
        upper_size = length-grown S.zero infinity n l.upper ∙ sym more;
        rows = λ id row truth e. ground (arith, same, h.rows id row truth e);
        sense_size = rw (same) h.sense_size;
        rhs_size = rw (same) h.rhs_size;
        from_row_size = rw (same) h.from_row_size;
      }

  add_linear_variable-IsValid :
      (v : Variable) (l : Linear Q P)
      → IsValid X l
      → IsValid X (add_linear_variable S infinity X v l)
  unfolding add_linear_variable
  add_linear_variable-IsValid v l h = elim (Option-cases (find_col v.id l.to_col)) [
    | inr (col, e) ↦
        let same : l ≡ add_linear_variable S infinity X v l = ground (arith) in
        subst (IsValid X) same h
    | inl e ↦
        let same : new_column S infinity X v l ≡ add_linear_variable S infinity X v l =
          ground (arith) in
        subst (IsValid X) same (new_column-IsValid v l h)
  ]

  pub add_linear_variables-IsValid :
      (vs : Variables) (l : Linear Q P)
      → IsValid X l
      → IsValid X (add_linear_variables S infinity X vs l)
  unfolding add_linear_variables
  add_linear_variables-IsValid [] l h = h
  add_linear_variables-IsValid (v ∷ vs) l h =
      add_linear_variables-IsValid vs (add_linear_variable S infinity X v l)
        (add_linear_variable-IsValid v l h)
