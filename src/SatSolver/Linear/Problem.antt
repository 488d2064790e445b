-- ===== src/SatSolver/Linear/Problem.antt =====
-- The rows of a problem, as SoPlex documents what its calls do to them, and what numbers satisfy
-- them.
use dlinear.Base.{
  ℕ, zero, suc, Bool, true, not, ◌&&◌, ◌||◌, ◌≡◌, refl, subst, some, List, [], ◌∷◌, ◌++◌, length,
  arith,
}
use dlinear.Symbolic.Meaning.{Structure}
use dlinear.Box.{get_elem?}
use dlinear.SatSolver.Linear.{Soplex}

-- Left side, coefficients, right side.
pub record Row (Q : Type 0) : Type 0 where
  pub lo : Q
  pub coeffs : List (ℕ × Q)
  pub hi : Q

module _ {Q : Type 0} where
  unfoldable pub set_range : ℕ → Q → Q → List (Row Q) → List (Row Q)
  set_range i lo hi [] = []
  set_range zero lo hi (r ∷ rs) = record r { lo = lo; hi = hi } ∷ rs
  set_range (suc i) lo hi (r ∷ rs) = r ∷ set_range i lo hi rs

-- What SoPlex documents of the rows. A new column without coefficients stands in no row.
pub record IsProblem {Q P : Type 0} (X : Soplex Q P) (rows : P → List (Row Q)) : Type 0 where
  pub rows-add_row :
      (lo hi : Q) (cs : List (ℕ × Q)) (p : P)
      → rows (X.add_row lo cs hi p) ≡ rows p ++ record { lo = lo; coeffs = cs; hi = hi } ∷ []
  pub rows-add_col : (c up low : Q) (p : P) → rows (X.add_col c [] up low p) ≡ rows p
  pub rows-change_range :
      (i : ℕ) (lo hi : Q) (p : P) → rows (X.change_range i lo hi p) ≡ set_range i lo hi (rows p)
  pub rows-change_bounds : (i : ℕ) (lo hi : Q) (p : P) → rows (X.change_bounds i lo hi p) ≡ rows p
  pub rows-clear_basis : (p : P) → rows (X.clear_basis p) ≡ rows p
  pub num_rows-length : (p : P) → X.num_rows p ≡ length (rows p)
  pub num_cols-change_range :
      (i : ℕ) (lo hi : Q) (p : P) → X.num_cols (X.change_range i lo hi p) ≡ X.num_cols p
  pub num_cols-change_bounds :
      (i : ℕ) (lo hi : Q) (p : P) → X.num_cols (X.change_bounds i lo hi p) ≡ X.num_cols p
  pub num_cols-clear_basis : (p : P) → X.num_cols (X.clear_basis p) ≡ X.num_cols p

module _ {Q : Type 0} (S : Structure Q) where
  -- The value of a row at the numbers `y` of the columns.
  unfoldable pub dot : (ℕ → Q) → List (ℕ × Q) → Q
  dot y [] = S.zero
  dot y ((col, c) ∷ cs) = S.plus (S.times c (y col)) (dot y cs)

module _ {Q : Type 0} (S : Structure Q) (infinity : Q) where
  -- A side at or beyond an infinity is no bound.
  abbrev pub in_range : Q → Q → Q → Bool
  in_range lo hi a =
      (not (S.less (S.minus S.zero infinity) lo) || not (S.less a lo))
      && (not (S.less hi infinity) || not (S.less hi a))

  abbrev pub satisfies_row : (ℕ → Q) → Row Q → Bool
  satisfies_row y r = in_range r.lo r.hi (dot S y r.coeffs)

  unfoldable pub satisfies_rows : (ℕ → Q) → List (Row Q) → Bool
  satisfies_rows y [] = true
  satisfies_rows y (r ∷ rs) = satisfies_row y r && satisfies_rows y rs

module _ {Q : Type 0} where
  pub get_elem?-set_range :
      (i : ℕ) (lo hi : Q) (rs : List (Row Q)) (r : Row Q)
      → get_elem? rs i ≡ some r
      → get_elem? (set_range i lo hi rs) i ≡ some (record r { lo = lo; hi = hi })
  unfolding get_elem? set_range
  get_elem?-set_range i lo hi [] r e = ground (arith)
  get_elem?-set_range zero lo hi (s ∷ rs) r e = ground (arith)
  get_elem?-set_range (suc i) lo hi (s ∷ rs) r e = get_elem?-set_range i lo hi rs r e

  -- The coefficients stay, whichever range is set.
  pub coeffs-set_range :
      (i j : ℕ) (lo hi : Q) (rs : List (Row Q)) (r : Row Q)
      → get_elem? rs j ≡ some r
      → (s : Row Q) × (get_elem? (set_range i lo hi rs) j ≡ some s) × (s.coeffs ≡ r.coeffs)
  unfolding get_elem? set_range
  coeffs-set_range i j lo hi [] r e = ground (arith)
  coeffs-set_range zero zero lo hi (s ∷ rs) r e =
      (record s { lo = lo; hi = hi }, refl, ground (arith))
  coeffs-set_range zero (suc j) lo hi (s ∷ rs) r e = (r, e, refl)
  coeffs-set_range (suc i) zero lo hi (s ∷ rs) r e = (r, e, refl)
  coeffs-set_range (suc i) (suc j) lo hi (s ∷ rs) r e = coeffs-set_range i j lo hi rs r e

  pub length-set_range :
      (i : ℕ) (lo hi : Q) (rs : List (Row Q)) → length (set_range i lo hi rs) ≡ length rs
  unfolding set_range
  length-set_range i lo hi [] = refl
  length-set_range zero lo hi (r ∷ rs) = refl
  length-set_range (suc i) lo hi (r ∷ rs) = omega (arith, length-set_range i lo hi rs)

module _ {Q : Type 0} (S : Structure Q) (infinity : Q) where
  -- Rows are still satisfied when a row gets a range that it keeps to.
  pub satisfies_rows-set_range :
      (y : ℕ → Q) (i : ℕ) (lo hi : Q) (rs : List (Row Q)) (r : Row Q)
      → get_elem? rs i ≡ some r
      → in_range S infinity lo hi (dot S y r.coeffs) ≡ true
      → satisfies_rows S infinity y rs ≡ true
      → satisfies_rows S infinity y (set_range i lo hi rs) ≡ true
  unfolding satisfies_rows get_elem? set_range
  satisfies_rows-set_range y i lo hi [] r e k h = refl
  satisfies_rows-set_range y zero lo hi (s ∷ rs) r e k h =
      let same : r ≡ s = ground (arith) in
      let k' = subst (λ t. in_range S infinity lo hi (dot S y t.coeffs) ≡ true) same k in
      ground (arith, k')
  satisfies_rows-set_range y (suc i) lo hi (s ∷ rs) r e k h =
      ground (arith, satisfies_rows-set_range y i lo hi rs r e k)
