-- ===== src/SatSolver/Linear/SameRows.antt =====
-- A problem whose rows were given other ranges, and bounds of the same sizes.
use dlinear.Base.{ℕ, zero, suc, ◌<◌, ◌≡◌, refl, sym, ap, ◌∙◌, subst, some, List, length, All}
use dlinear.Symbolic.Syntax.{Variable, Formula}
use dlinear.Symbolic.Meaning.{Structure}
use dlinear.Box.{get_elem?}
use dlinear.SatSolver.Linear.{Soplex, Linear, clear_ranges, minus_infinity}
use dlinear.SatSolver.Linear.Problem.{Row, IsProblem, coeffs-set_range, length-set_range}
use dlinear.SatSolver.Linear.Represents.{IsNumbered, Represents, Extends, rows_of-Extends}

module _ {Q P : Type 0} (X : Soplex Q P) (rows : P → List (Row Q)) where
  -- The sizes of the second problem are those of the first, and so are the coefficients.
  pub record SameRows (p p' : P) : Type 0 where
    pub cols : X.num_cols p' ≡ X.num_cols p
    pub size : length (rows p') ≡ length (rows p)
    pub bodies :
        (row : ℕ) (b : Row Q)
        → get_elem? (rows p) row ≡ some b
        → (b' : Row Q) × (get_elem? (rows p') row ≡ some b') × (b'.coeffs ≡ b.coeffs)

  pub SameRows-trans : (p p' p'' : P) → SameRows p p' → SameRows p' p'' → SameRows p p''
  SameRows-trans p p' p'' h k = record {
    cols = k.cols ∙ h.cols;
    size = k.size ∙ h.size;
    bodies = λ row b e.
        let (b1, e1, same1) = h.bodies row b e in
        let (b2, e2, same2) = k.bodies row b1 e1 in (b2, e2, same2 ∙ same1);
  }

  pub SameRows-equal : (p p' : P) → X.num_cols p' ≡ X.num_cols p → rows p' ≡ rows p → SameRows p p'
  SameRows-equal p p' cols same = record {
    cols = cols;
    size = ap length same;
    bodies = λ row b e. (b, ap (λ rs. get_elem? rs row) same ∙ e, refl);
  }

module _ {Q P : Type 0} {X : Soplex Q P} {rows : P → List (Row Q)} (prob : IsProblem X rows) where
  pub SameRows-change_range :
      (i : ℕ) (lo hi : Q) (p : P) → SameRows X rows p (X.change_range i lo hi p)
  SameRows-change_range i lo hi p =
      let same = prob.rows-change_range i lo hi p in
      record {
        cols = prob.num_cols-change_range i lo hi p;
        size = ap length same ∙ length-set_range i lo hi (rows p);
        bodies = λ row b e.
            let (b', e', k) = coeffs-set_range i row lo hi (rows p) b e in
            (b', ap (λ rs. get_elem? rs row) same ∙ e', k);
      }

module _ {Q P : Type 0} (S : Structure Q) (infinity : Q) {X : Soplex Q P} {rows : P → List (Row Q)}
    (prob : IsProblem X rows) where
  pub SameRows-clear_ranges : (n : ℕ) (p : P) → SameRows X rows p (clear_ranges S infinity X n p)
  unfolding clear_ranges
  SameRows-clear_ranges zero p = SameRows-equal X rows p p refl refl
  SameRows-clear_ranges (suc n) p =
      SameRows-trans X rows p (clear_ranges S infinity X n p) _ (SameRows-clear_ranges n p)
        (SameRows-change_range prob n (minus_infinity S infinity X) infinity _)

  -- A problem and bounds of the same sizes.
  pub replaced :
      (formulas : List (Variable × Formula Q)) (l : Linear Q P) (p : P) (lower upper : List Q)
      → Represents S infinity X rows formulas l
      → SameRows X rows l.prob p
      → length lower ≡ length l.lower
      → length upper ≡ length l.upper
      → Represents S infinity X rows formulas (record l { prob = p; lower = lower; upper = upper })
  replaced formulas l p lower upper h same low up =
      let l' : Linear Q P = record l { prob = p; lower = lower; upper = upper } in
      let row_count : X.num_rows p ≡ X.num_rows l.prob =
        prob.num_rows-length p ∙ same.size ∙ sym (prob.num_rows-length l.prob) in
      let more : Extends S infinity X rows l l' = record {
        senses = λ row s e. e;
        rights = λ row r e. e;
        bodies = same.bodies;
        follows = λ env y f. f;
      } in
      record {
        valid = record {
          injective = h.valid.injective;
          columns = λ id col e. subst (λ n. col < n) (sym same.cols) (h.valid.columns id col e);
          lower_size = low ∙ h.valid.lower_size ∙ sym same.cols;
          upper_size = up ∙ h.valid.upper_size ∙ sym same.cols;
          rows = λ id row t e. subst (λ n. row < n) (sym row_count) (h.valid.rows id row t e);
          sense_size = h.valid.sense_size ∙ sym row_count;
          rhs_size = h.valid.rhs_size ∙ sym row_count;
          from_row_size = h.valid.from_row_size ∙ sym row_count;
        };
        mirror = h.mirror;
        numbered = subst (λ n. IsNumbered n l.to_col) (sym same.cols) h.numbered;
        columns = subst (λ n. All (λ c. c.0 < n) l.from_col) (sym same.cols) h.columns;
        rows_of = rows_of-Extends S infinity X rows formulas l l' h more refl;
      }
