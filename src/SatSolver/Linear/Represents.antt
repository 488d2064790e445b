-- ===== src/SatSolver/Linear/Represents.antt =====
-- The linear problem represents the theory literals that were added: columns are numbered in the
-- order of their variables, and each row says what its literal says.
use dlinear.Base.{
  ℕ, zero, suc, ◌<◌, Bool, ◌≡◌, ◌⊎◌, refl, sym, ap, ◌∙◌, none, some, List, [], ◌∷◌, ◌++◌, length,
  All, inl, inr, arith,
}
use dlinear.Symbolic.Syntax.{Variable, Formula}
use dlinear.Symbolic.Meaning.{Structure, Env}
use dlinear.PredicateAbstractor.{find_formula}
use dlinear.Box.{get_elem?}
use dlinear.SatSolver.Linear.{Soplex, Linear, Sense, find_col, find_row, range_of}
use dlinear.SatSolver.Linear.Enable.{relaxed}
use dlinear.SatSolver.Linear.Columns.{IsValid}
use dlinear.SatSolver.Linear.Problem.{Row, dot, in_range}
use dlinear.SatSolver.Linear.Affine.{Follows}

-- Each new variable got the next column.
abbrev pub IsNumbered : ℕ → List (ℕ × ℕ) → Type 0
IsNumbered n [] = n ≡ 0
IsNumbered n ((id, col) ∷ m) = (n ≡ suc col) × (find_col id m ≡ none) × IsNumbered col m

-- The columns of the variables, from the variables of the columns.
abbrev pub columns_of : List (ℕ × Variable) → List (ℕ × ℕ)
columns_of [] = []
columns_of ((col, v) ∷ m) = (v.id, col) ∷ columns_of m

module _ {Q P : Type 0} (S : Structure Q) (infinity : Q) (X : Soplex Q P)
    (rows : P → List (Row Q)) where
  -- The row is that of the literal: when it is enabled, it admits the points that satisfy the
  -- literal, with a strict inequality weakened.
  pub record RowOf (l : Linear Q P) (f : Formula Q) (truth : Bool) (row : ℕ) : Type 0 where
    pub sense : Sense
    pub right : Q
    pub body : Row Q
    pub sense_at : get_elem? l.sense row ≡ some sense
    pub right_at : get_elem? l.rhs row ≡ some right
    pub body_at : get_elem? (rows l.prob) row ≡ some body
    pub means :
        (env : Env Q) (y : ℕ → Q)
        → Follows env y l.to_col
        → in_range S infinity
            (range_of S infinity X sense right).0
            (range_of S infinity X sense right).1
            (dot S y body.coeffs)
          ≡ relaxed S env f truth

  -- Every row is that of a formula that the abstractor keeps.
  pub record Represents (formulas : List (Variable × Formula Q)) (l : Linear Q P) : Type 0 where
    pub valid : IsValid X l
    pub numbered : IsNumbered (X.num_cols l.prob) l.to_col
    pub mirror : l.to_col ≡ columns_of l.from_col
    pub columns : All (λ c. c.0 < X.num_cols l.prob) l.from_col
    pub rows_of :
        (v : Variable) (truth : Bool) (row : ℕ)
        → find_row v.id truth l.to_row ≡ some row
        → (f : Formula Q) × (find_formula v formulas ≡ some f) × RowOf l f truth row

  -- The second problem has the columns, senses and right sides of the first, and its coefficients.
  pub record Extends (l l' : Linear Q P) : Type 0 where
    pub senses :
        (row : ℕ) (s : Sense) → get_elem? l.sense row ≡ some s → get_elem? l'.sense row ≡ some s
    pub rights : (row : ℕ) (r : Q) → get_elem? l.rhs row ≡ some r → get_elem? l'.rhs row ≡ some r
    pub bodies :
        (row : ℕ) (b : Row Q)
        → get_elem? (rows l.prob) row ≡ some b
        → (b' : Row Q) × (get_elem? (rows l'.prob) row ≡ some b') × (b'.coeffs ≡ b.coeffs)
    pub follows : (env : Env Q) (y : ℕ → Q) → Follows env y l'.to_col → Follows env y l.to_col

  pub RowOf-Extends :
      (l l' : Linear Q P) (f : Formula Q) (truth : Bool) (row : ℕ)
      → Extends l l'
      → RowOf l f truth row
      → RowOf l' f truth row
  RowOf-Extends l l' f truth row more r =
      let (b, at, same) = more.bodies row r.body r.body_at in
      record {
        sense = r.sense;
        right = r.right;
        body = b;
        sense_at = more.senses row r.sense r.sense_at;
        right_at = more.rights row r.right r.right_at;
        body_at = at;
        means = λ env y f'.
            ap
              (λ cs.
                in_range S infinity (range_of S infinity X r.sense r.right).0
                  (range_of S infinity X r.sense r.right).1 (dot S y cs))
              same
            ∙ r.means env y (more.follows env y f');
      }

  pub rows_of-Extends :
      (formulas : List (Variable × Formula Q)) (l l' : Linear Q P)
      → Represents formulas l
      → Extends l l'
      → l'.to_row ≡ l.to_row
      → (v : Variable) (truth : Bool) (row : ℕ) → find_row v.id truth l'.to_row ≡ some row
      → (f : Formula Q) × (find_formula v formulas ≡ some f) × RowOf l' f truth row
  rows_of-Extends formulas l l' h more same v truth row e =
      let (f, kept, r) = h.rows_of v truth row (sym (ap (find_row v.id truth) same) ∙ e) in
      (f, kept, RowOf-Extends l l' f truth row more r)

module _ {ℓ} {A : Type ℓ} where
  pub get_elem?-append :
      (xs ys : List A) (i : ℕ) (x : A) → get_elem? xs i ≡ some x → get_elem? (xs ++ ys) i ≡ some x
  unfolding get_elem?
  get_elem?-append [] ys i x e = ground (arith)
  get_elem?-append (z ∷ xs) ys zero x e = e
  get_elem?-append (z ∷ xs) ys (suc i) x e = get_elem?-append xs ys i x e

  pub get_elem?-last :
      (xs : List A) (x : A) (i : ℕ) → length xs ≡ i → get_elem? (xs ++ x ∷ []) i ≡ some x
  unfolding get_elem?
  get_elem?-last [] x zero e = refl
  get_elem?-last [] x (suc i) e = ground (arith)
  get_elem?-last (y ∷ xs) x zero e = ground (arith)
  get_elem?-last (y ∷ xs) x (suc i) e = get_elem?-last xs x i (omega (arith, e))

  pub get_elem?-snoc :
      (xs : List A) (x y : A) (i : ℕ)
      → get_elem? (xs ++ x ∷ []) i ≡ some y
      → (get_elem? xs i ≡ some y) ⊎ ((i ≡ length xs) × (x ≡ y))
  unfolding get_elem?
  get_elem?-snoc [] x y zero e = inr (refl, ground (arith))
  get_elem?-snoc [] x y (suc i) e = absurd (ground (arith))
  get_elem?-snoc (z ∷ xs) x y zero e = inl e
  get_elem?-snoc (z ∷ xs) x y (suc i) e = elim (get_elem?-snoc xs x y i e) [
    | inl k ↦ inl k
    | inr (at, same) ↦ inr (ap suc at, same)
  ]
