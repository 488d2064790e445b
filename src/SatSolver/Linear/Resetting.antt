-- ===== src/SatSolver/Linear/Resetting.antt =====
-- `ResetLinearProblem` disables every row and keeps what the rows stand for.
use dlinear.Base.{
  ℕ, zero, suc, ◌<◌, true, false, ◌≡◌, refl, sym, ap, ◌∙◌, subst, some, List, [], ◌∷◌, length, ◌==◌,
  Bool-cases, inl, inr, arith,
}
use dlinear.Symbolic.Syntax.{Variable, Formula}
use dlinear.Symbolic.Meaning.{Structure, IsOrdered}
use dlinear.Box.{Box, get_elem?, set}
use dlinear.SatSolver.Linear.{
  Soplex, Linear, clear_ranges, reset_columns, reset_interval, reset_linear_problem, minus_infinity,
}
use dlinear.Box.Access.{get_elem?-some}
use dlinear.SatSolver.Linear.Columns.{length-set}
use dlinear.SatSolver.Linear.Problem.{
  Row, set_range, IsProblem, satisfies_row, satisfies_rows, get_elem?-set_range,
}
use dlinear.SatSolver.Linear.SameRows.{
  SameRows-trans, SameRows-equal, SameRows-clear_ranges, replaced,
}
use dlinear.SatSolver.Linear.Represents.{Represents}

module _ {Q : Type 0} where
  pub get_elem?-set_range_other :
      (i j : ℕ) (lo hi : Q) (rs : List (Row Q))
      → (i == j) ≡ false
      → get_elem? (set_range i lo hi rs) j ≡ get_elem? rs j
  unfolding get_elem? set_range
  get_elem?-set_range_other i j lo hi [] e = refl
  get_elem?-set_range_other zero zero lo hi (r ∷ rs) e = ground (arith)
  get_elem?-set_range_other zero (suc j) lo hi (r ∷ rs) e = refl
  get_elem?-set_range_other (suc i) zero lo hi (r ∷ rs) e = refl
  get_elem?-set_range_other (suc i) (suc j) lo hi (r ∷ rs) e =
      get_elem?-set_range_other i j lo hi rs (ground (arith))

  get_elem?-lt : (rs : List (Row Q)) (j : ℕ) (r : Row Q) → get_elem? rs j ≡ some r → j < length rs
  unfolding get_elem?
  get_elem?-lt [] j r e = absurd (ground (arith))
  get_elem?-lt (s ∷ rs) zero r e = omega arith
  get_elem?-lt (s ∷ rs) (suc j) r e = omega (arith, get_elem?-lt rs j r e)

module _ {Q P : Type 0} {S : Structure Q} (ordered : IsOrdered S) (infinity : Q) {X : Soplex Q P}
    {rows : P → List (Row Q)} (prob : IsProblem X rows) where
  satisfies_rows-each :
      (y : ℕ → Q) (rs : List (Row Q))
      → ((j : ℕ) (r : Row Q) → get_elem? rs j ≡ some r → satisfies_row S infinity y r ≡ true)
      → satisfies_rows S infinity y rs ≡ true
  unfolding satisfies_rows get_elem?
  satisfies_rows-each y [] each = refl
  satisfies_rows-each y (r ∷ rs) each =
      ground (arith, each 0 r refl, satisfies_rows-each y rs (λ j s e. each (suc j) s e))

  -- The first rows have no bounds.
  clear_ranges-free :
      (n : ℕ) (p : P) (j : ℕ) (r s : Row Q)
      → j < n
      → get_elem? (rows (clear_ranges S infinity X n p)) j ≡ some r
      → get_elem? (rows p) j ≡ some s
      → (r.lo ≡ minus_infinity S infinity X) × (r.hi ≡ infinity)
  unfolding clear_ranges
  clear_ranges-free zero p j r s h e k = absurd (omega (arith, h))
  clear_ranges-free (suc n) p j r s h e k =
      let low = minus_infinity S infinity X in
      let q = clear_ranges S infinity X n p in
      let e' : get_elem? (set_range n low infinity (rows q)) j ≡ some r =
        ap (λ rs. get_elem? rs j) (sym (prob.rows-change_range n low infinity q)) ∙ e in
      let (t, at, _) = (SameRows-clear_ranges S infinity prob n p).bodies j s k in
      elim (Bool-cases (n == j)) [
        | inl met ↦
            let same : n ≡ j = ground (arith) in
            let here = get_elem?-set_range j low infinity (rows q) t at in
            let there =
              subst (λ i. get_elem? (set_range i low infinity (rows q)) j ≡ some r) same e' in
            ground (arith, here, there)
        | inr other ↦
            clear_ranges-free n p j r s (ground (arith))
              (sym (get_elem?-set_range_other n j low infinity (rows q) other) ∙ e') k
      ]

  -- No number is excluded by a row without bounds.
  satisfies_row-free :
      (y : ℕ → Q) (r : Row Q)
      → r.lo ≡ minus_infinity S infinity X
      → r.hi ≡ infinity
      → satisfies_row S infinity y r ≡ true
  satisfies_row-free y r low up =
      let bottom = minus_infinity S infinity X in
      ground (arith, ordered.less_asym bottom bottom, ordered.less_asym infinity infinity)

  reset_columns-rows :
      (box : Box Q) (m : List (ℕ × Variable)) (l : Linear Q P)
      → rows (reset_columns S infinity X box m l).prob ≡ rows l.prob
  unfolding reset_columns
  reset_columns-rows box [] l = refl
  reset_columns-rows box ((col, v) ∷ m) l =
      reset_columns-rows box m _
      ∙ prob.rows-change_bounds col (minus_infinity S infinity X) infinity l.prob

  reset_columns-Represents :
      (formulas : List (Variable × Formula Q)) (box : Box Q) (m : List (ℕ × Variable))
      (l : Linear Q P)
      → Represents S infinity X rows formulas l
      → Represents S infinity X rows formulas (reset_columns S infinity X box m l)
  unfolding reset_columns
  reset_columns-Represents formulas box [] l h = h
  reset_columns-Represents formulas box ((col, v) ∷ m) l h =
      let low = minus_infinity S infinity X in
      let iv = reset_interval S infinity X box v in
      reset_columns-Represents formulas box m _ (
        replaced S infinity prob formulas l (X.change_bounds col low infinity l.prob)
          (set l.lower col iv.lb) (set l.upper col iv.ub) h
          (SameRows-equal X rows l.prob _ (prob.num_cols-change_bounds col low infinity l.prob)
            (prob.rows-change_bounds col low infinity l.prob))
          (length-set l.lower col iv.lb) (length-set l.upper col iv.ub))

  pub reset-Represents :
      (formulas : List (Variable × Formula Q)) (box : Box Q) (l : Linear Q P)
      → Represents S infinity X rows formulas l
      → Represents S infinity X rows formulas (reset_linear_problem S infinity X box l)
  unfolding reset_linear_problem
  reset-Represents formulas box l h =
      let p = X.clear_basis l.prob in
      let n = X.num_rows p in
      let same =
        SameRows-trans X rows l.prob p (clear_ranges S infinity X n p)
          (SameRows-equal X rows l.prob p (prob.num_cols-clear_basis l.prob)
            (prob.rows-clear_basis l.prob))
          (SameRows-clear_ranges S infinity prob n p) in
      reset_columns-Represents formulas box l.from_col _ (
        replaced S infinity prob formulas l (clear_ranges S infinity X n p) l.lower l.upper h same
          refl refl)

  -- After the reset every row is disabled: no number is excluded.
  pub reset-satisfies :
      (box : Box Q) (l : Linear Q P) (y : ℕ → Q)
      → satisfies_rows S infinity y (rows (reset_linear_problem S infinity X box l).prob) ≡ true
  unfolding reset_linear_problem
  reset-satisfies box l y =
      let p = X.clear_basis l.prob in
      let n = X.num_rows p in
      let same = SameRows-clear_ranges S infinity prob n p in
      ap (satisfies_rows S infinity y) (reset_columns-rows box l.from_col _)
      ∙ satisfies_rows-each y (rows (clear_ranges S infinity X n p)) (λ j r e.
        let below = get_elem?-lt (rows (clear_ranges S infinity X n p)) j r e in
        let inside : j < length (rows p) = omega (arith, below, same.size) in
        let (s, at) = get_elem?-some j (rows p) inside in
        let (low, up) =
          clear_ranges-free n p j r s (omega (arith, inside, prob.num_rows-length p)) e at in
        satisfies_row-free y r low up)
