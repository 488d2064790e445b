-- ===== src/SatSolver/Linear/OnRow.antt =====
-- The row of a literal is enabled, and stays so.
use dlinear.Base.{
  ℕ, zero, suc, Bool, true, ◌≡◌, ◌⊎◌, refl, sym, ap, ap₂, ◌∙◌, subst, none, some, List, [], ◌∷◌,
  ◌==◌, Bool-cases, inl, inr, arith,
}
use dlinear.Symbolic.Syntax.{Variable, Formula}
use dlinear.Symbolic.Meaning.{Structure, Env}
use dlinear.Box.{get_elem?}
use dlinear.SatSolver.Linear.{Soplex, Linear, find_row, range_of, is_simple_bound}
use dlinear.SatSolver.Linear.Rows.{sense_of}
use dlinear.SatSolver.Linear.Enable.{relaxed}
use dlinear.SatSolver.Linear.Problem.{
  Row, set_range, IsProblem, dot, in_range, satisfies_row, satisfies_rows, get_elem?-set_range,
}
use dlinear.SatSolver.Linear.Affine.{Follows}
use dlinear.SatSolver.Linear.Represents.{RowOf}
use dlinear.SatSolver.Linear.Resetting.{get_elem?-set_range_other}

module _ {Q P : Type 0} (S : Structure Q) (infinity : Q) (X : Soplex Q P)
    (rows : P → List (Row Q)) where
  -- The row is that of the literal, and is enabled.
  pub record OnRow (l : Linear Q P) (f : Formula Q) (truth : Bool) (row : ℕ) : Type 0 where
    pub row_of : RowOf S infinity X rows l f truth row
    pub lo : row_of.body.lo ≡ (range_of S infinity X row_of.sense row_of.right).0
    pub hi : row_of.body.hi ≡ (range_of S infinity X row_of.sense row_of.right).1

  -- The problem says what the literal says: by a row, by a bound, or by nothing where a literal
  -- restricts no side.
  abbrev pub Covered : Linear Q P → Variable → Bool → Formula Q → Type 0
  Covered l v truth f =
      ((row : ℕ) × (find_row v.id truth l.to_row ≡ some row))
      ⊎ ((is_simple_bound f ≡ true) ⊎ (sense_of S infinity X f truth ≡ none))

module _ {Q : Type 0} (S : Structure Q) (infinity : Q) where
  satisfies_rows-at :
      (y : ℕ → Q) (rs : List (Row Q)) (i : ℕ) (r : Row Q)
      → get_elem? rs i ≡ some r
      → satisfies_rows S infinity y rs ≡ true
      → satisfies_row S infinity y r ≡ true
  unfolding satisfies_rows get_elem?
  satisfies_rows-at y [] i r e w = absurd (ground (arith))
  satisfies_rows-at y (s ∷ rs) zero r e w =
      let same : s ≡ r = ground (arith) in
      subst (λ t. satisfies_row S infinity y t ≡ true) same (ground (arith))
  satisfies_rows-at y (s ∷ rs) (suc i) r e w = satisfies_rows-at y rs i r e (ground (arith))

module _ {Q P : Type 0} {S : Structure Q} (infinity : Q) {X : Soplex Q P} {rows : P → List (Row Q)}
    (prob : IsProblem X rows) where
  -- An enabled row holds its literal.
  pub OnRow-relaxed :
      (l : Linear Q P) (f : Formula Q) (truth : Bool) (row : ℕ) (env : Env Q) (y : ℕ → Q)
      → OnRow S infinity X rows l f truth row
      → Follows env y l.to_col
      → satisfies_rows S infinity y (rows l.prob) ≡ true
      → relaxed S env f truth ≡ true
  OnRow-relaxed l f truth row env y on follows w =
      let r = on.row_of in
      let met = satisfies_rows-at S infinity y (rows l.prob) row r.body r.body_at w in
      sym (r.means env y follows)
      ∙ subst
          (λ a.
            in_range S infinity a (range_of S infinity X r.sense r.right).1 (dot S y r.body.coeffs)
            ≡ true)
          on.lo
          (subst (λ b. in_range S infinity r.body.lo b (dot S y r.body.coeffs) ≡ true) on.hi met)

  -- Another problem with the row, in the same range.
  pub rebodied :
      (l : Linear Q P) (p : P) (lower upper : List Q) (f : Formula Q) (truth : Bool) (row : ℕ)
      (b : Row Q) (on : OnRow S infinity X rows l f truth row)
      → get_elem? (rows p) row ≡ some b
      → b.coeffs ≡ on.row_of.body.coeffs
      → b.lo ≡ (range_of S infinity X on.row_of.sense on.row_of.right).0
      → b.hi ≡ (range_of S infinity X on.row_of.sense on.row_of.right).1
      → OnRow S infinity X rows (record l { prob = p; lower = lower; upper = upper }) f truth row
  rebodied l p lower upper f truth row b on at same low up =
      let r = on.row_of in
      let (lo, hi) = range_of S infinity X r.sense r.right in
      record {
        row_of = record {
          sense = r.sense;
          right = r.right;
          body = b;
          sense_at = r.sense_at;
          right_at = r.right_at;
          body_at = at;
          means = λ env y follows.
              ap (λ cs. in_range S infinity lo hi (dot S y cs)) same ∙ r.means env y follows;
        };
        lo = low;
        hi = up;
      }

  -- A row that is enabled stays so when another is, or the same again.
  pub OnRow-change_range :
      (l : Linear Q P) (f g : Formula Q) (truth t : Bool) (row i : ℕ)
      (r : RowOf S infinity X rows l g t i)
      → OnRow S infinity X rows l f truth row
      → OnRow S infinity X rows
          (record l {
            prob =
                X.change_range i
                  (range_of S infinity X r.sense r.right).0
                  (range_of S infinity X r.sense r.right).1
                  l.prob;
          })
          f
          truth
          row
  OnRow-change_range l f g truth t row i r on =
      let (lo, hi) = range_of S infinity X r.sense r.right in
      let p = X.change_range i lo hi l.prob in
      let changed = prob.rows-change_range i lo hi l.prob in
      let b = on.row_of.body in
      elim (Bool-cases (i == row)) [
        | inl met ↦
            let same : i ≡ row = ground (arith) in
            let senses : r.sense ≡ on.row_of.sense =
              ground (arith, r.sense_at, on.row_of.sense_at, ap (get_elem? l.sense) same) in
            let rights : r.right ≡ on.row_of.right =
              ground (arith, r.right_at, on.row_of.right_at, ap (get_elem? l.rhs) same) in
            let ranges = ap₂ (range_of S infinity X) senses rights in
            rebodied l p l.lower l.upper f truth row (record b { lo = lo; hi = hi }) on
              (ap (λ rs. get_elem? rs row) changed
                ∙ ap (λ j. get_elem? (set_range j lo hi (rows l.prob)) row) same
                ∙ get_elem?-set_range row lo hi (rows l.prob) b on.row_of.body_at)
              refl (ap (λ q. q.0) ranges) (ap (λ q. q.1) ranges)
        | inr other ↦
            rebodied l p l.lower l.upper f truth row b on
              (ap (λ rs. get_elem? rs row) changed
                ∙ get_elem?-set_range_other i row lo hi (rows l.prob) other
                ∙ on.row_of.body_at)
              refl on.lo on.hi
      ]

  -- The row that was just enabled.
  pub OnRow-self :
      (l : Linear Q P) (f : Formula Q) (truth : Bool) (row : ℕ)
      (r : RowOf S infinity X rows l f truth row)
      → OnRow S infinity X rows
          (record l {
            prob =
                X.change_range row
                  (range_of S infinity X r.sense r.right).0
                  (range_of S infinity X r.sense r.right).1
                  l.prob;
          })
          f
          truth
          row
  OnRow-self l f truth row r =
      let (lo, hi) = range_of S infinity X r.sense r.right in
      record {
        row_of = record {
          sense = r.sense;
          right = r.right;
          body = record (r.body) { lo = lo; hi = hi };
          sense_at = r.sense_at;
          right_at = r.right_at;
          body_at =
              ap (λ rs. get_elem? rs row) (prob.rows-change_range row lo hi l.prob)
              ∙ get_elem?-set_range row lo hi (rows l.prob) r.body r.body_at;
          means = r.means;
        };
        lo = refl;
        hi = refl;
      }
