-- ===== src/SatSolver/Linear/Adding.antt =====
-- `AddLinearLiteral` in phase one keeps the linear problem a representation of the literals.
use dlinear.Base.{
  ℕ, ◌<◌, Bool, true, false, ◌≡◌, ◌⊎◌, refl, sym, ap, ◌∙◌, subst, none, some, List, [], ◌∷◌, ◌++◌,
  All, All-imp, ◌==◌, Bool-cases, Option-cases, inl, inr, arith,
}
use dlinear.Symbolic.Syntax.{Variable, Variables, Formula, Expression}
use dlinear.Symbolic.Meaning.{Structure, IsOrdered, Env}
use dlinear.PredicateAbstractor.{find_formula}
use dlinear.PredicateAbstractor.Grows.{find_formula-id}
use dlinear.Box.{get_elem?}
use dlinear.SatSolver.Linear.{
  Soplex, Linear, Sense, find_col, find_row, range_of, operands, is_simple_bound, new_column,
  add_linear_variable, add_linear_variables, too_large, minus_infinity,
}
use dlinear.SatSolver.Linear.Rows.{sense_of, row_of, append_row, add_row, add_linear_literal}
use dlinear.SatSolver.Linear.Enable.{relaxed}
use dlinear.SatSolver.Linear.Columns.{IsSoplex, IsValid, new_column-IsValid}
use dlinear.SatSolver.Linear.Shape.{append_row-IsValid}
use dlinear.SatSolver.Linear.Problem.{Row, IsProblem, dot, in_range}
use dlinear.SatSolver.Linear.Affine.{IsAffine, Follows, row_of-RowMeans}
use dlinear.SatSolver.Linear.Ranges.{IsDifference, in_range-relaxed}
use dlinear.SatSolver.Linear.Represents.{
  IsNumbered, RowOf, Represents, Extends, RowOf-Extends, rows_of-Extends, get_elem?-append,
  get_elem?-last,
}

module _ {Q P : Type 0} {S : Structure Q} (ordered : IsOrdered S) (affine : IsAffine S)
    (infinity : Q) {X : Soplex Q P} (law : IsSoplex X) {rows : P → List (Row Q)}
    (prob : IsProblem X rows) where
  Follows-tail :
      (env : Env Q) (y : ℕ → Q) (i n : ℕ) (m : List (ℕ × ℕ))
      → find_col i m ≡ none
      → Follows env y ((i, n) ∷ m)
      → Follows env y m
  unfolding find_col
  Follows-tail env y i n m fresh f id col e = elim (Bool-cases (id == i)) [
    | inl met ↦
        let same : id ≡ i = ground (arith) in absurd (ground (arith, ap (λ j. find_col j m) same))
    | inr other ↦ f id col (ground (arith))
  ]

  new_column-Extends :
      (v : Variable) (l : Linear Q P)
      → find_col v.id l.to_col ≡ none
      → Extends S infinity X rows l (new_column S infinity X v l)
  unfolding new_column
  new_column-Extends v l fresh =
      let same = prob.rows-add_col S.zero infinity (minus_infinity S infinity X) l.prob in
      record {
        senses = λ row s e. e;
        rights = λ row r e. e;
        bodies = λ row b e. (b, ap (λ rs. get_elem? rs row) same ∙ e, refl);
        follows = λ env y. Follows-tail env y v.id (X.num_cols l.prob) l.to_col fresh;
      }

  new_column-Represents :
      (formulas : List (Variable × Formula Q)) (v : Variable) (l : Linear Q P)
      → find_col v.id l.to_col ≡ none
      → Represents S infinity X rows formulas l
      → Represents S infinity X rows formulas (new_column S infinity X v l)
  unfolding new_column
  new_column-Represents formulas v l fresh h =
      let n = X.num_cols l.prob in
      let more = law.num_cols-add_col S.zero infinity (minus_infinity S infinity X) [] l.prob in
      record {
        valid = new_column-IsValid S infinity law v l h.valid;
        numbered = (omega (arith, more), fresh, h.numbered);
        mirror = ap (λ m. (v.id, n) ∷ m) h.mirror;
        columns =
            (omega (arith, more), All-imp (λ c k. omega (arith, more, k)) l.from_col h.columns);
        rows_of =
            rows_of-Extends S infinity X rows formulas l (new_column S infinity X v l) h
              (new_column-Extends v l fresh) refl;
      }

  pub add_linear_variables-Represents :
      (formulas : List (Variable × Formula Q)) (vs : Variables) (l : Linear Q P)
      → Represents S infinity X rows formulas l
      → Represents S infinity X rows formulas (add_linear_variables S infinity X vs l)
  unfolding add_linear_variables add_linear_variable
  add_linear_variables-Represents formulas [] l h = h
  add_linear_variables-Represents formulas (v ∷ vs) l h =
      add_linear_variables-Represents formulas vs (add_linear_variable S infinity X v l)
        (elim (Option-cases (find_col v.id l.to_col)) [
          | inr (col, e) ↦ rw (e, add_linear_variable) h
          | inl e ↦ rw (e, add_linear_variable) (new_column-Represents formulas v l e h)
        ])

  -- Looking up a literal after a row was added for one.
  find_row-new :
      (v w : Variable) (t truth : Bool) (n row : ℕ) (m : List ((ℕ × Bool) × ℕ))
      → find_row w.id truth (((v.id, t), n) ∷ m) ≡ some row
      → ((w.id ≡ v.id) × (truth ≡ t) × (row ≡ n)) ⊎ (find_row w.id truth m ≡ some row)
  unfolding find_row
  find_row-new v w true true n row m e = ground (arith)
  find_row-new v w true false n row m e = ground (arith)
  find_row-new v w false true n row m e = ground (arith)
  find_row-new v w false false n row m e = ground (arith)

  module _ (v : Variable) (truth : Bool) (sense : Sense) (cs : List (ℕ × Q)) (rhs : Q) (phase : ℕ)
      (l : Linear Q P) (phase_one : (phase == 2) ≡ false) where
    -- The problem with the row, without artificial columns.
    abbrev added : Linear Q P
    added = record l {
      prob = X.add_row (minus_infinity S infinity X) cs infinity l.prob;
      to_row = ((v.id, truth), X.num_rows l.prob) ∷ l.to_row;
      from_row = l.from_row ++ (v, truth) ∷ [];
      rhs = l.rhs ++ rhs ∷ [];
      sense = l.sense ++ sense ∷ [];
    }

    append_row-added : append_row S infinity X v truth sense cs rhs phase l ≡ added
    unfolding append_row
    append_row-added = rw (phase_one, append_row) refl

    abbrev body : Row Q
    body = record { lo = minus_infinity S infinity X; coeffs = cs; hi = infinity }

    rows-added : rows added.prob ≡ rows l.prob ++ body ∷ []
    rows-added = prob.rows-add_row (minus_infinity S infinity X) infinity cs l.prob

    added-Extends : Extends S infinity X rows l added
    added-Extends = record {
      senses = λ row s e. get_elem?-append l.sense (sense ∷ []) row s e;
      rights = λ row r e. get_elem?-append l.rhs (rhs ∷ []) row r e;
      bodies = λ row b e. (
        b,
        ap (λ rs. get_elem? rs row) rows-added ∙ get_elem?-append (rows l.prob) (body ∷ []) row b e,
        refl,
      );
      follows = λ env y f. f;
    }

    added-Represents :
        (formulas : List (Variable × Formula Q)) (f : Formula Q)
        → Represents S infinity X rows formulas l
        → find_formula v formulas ≡ some f
        → ((env : Env Q) (y : ℕ → Q)
            → Follows env y l.to_col
            → in_range S infinity
                (range_of S infinity X sense rhs).0
                (range_of S infinity X sense rhs).1
                (dot S y cs)
              ≡ relaxed S env f truth)
        → Represents S infinity X rows formulas added
    added-Represents formulas f h kept means =
        let cols = law.num_cols-add_row (minus_infinity S infinity X) infinity cs l.prob in
        let row = X.num_rows l.prob in
        let new_row : RowOf S infinity X rows added f truth row = record {
          sense = sense;
          right = rhs;
          body = body;
          sense_at = get_elem?-last l.sense sense row h.valid.sense_size;
          right_at = get_elem?-last l.rhs rhs row h.valid.rhs_size;
          body_at =
              ap (λ rs. get_elem? rs row) rows-added
              ∙ get_elem?-last (rows l.prob) body row (sym (prob.num_rows-length l.prob));
          means = means;
        } in
        record {
          valid =
              subst (IsValid X) append_row-added
                (append_row-IsValid S infinity law v truth sense cs rhs phase l h.valid);
          mirror = h.mirror;
          numbered = subst (λ n. IsNumbered n l.to_col) (sym cols) h.numbered;
          columns = subst (λ n. All (λ c. c.0 < n) l.from_col) (sym cols) h.columns;
          rows_of = λ w t r e. elim (find_row-new v w truth t row r l.to_row e) [
            | inl (id, sign, at) ↦ (
              f,
              find_formula-id w v formulas id ∙ kept,
              subst (λ b. RowOf S infinity X rows added f b r) (sym sign)
                  (subst (RowOf S infinity X rows added f truth) (sym at) new_row),
            )
            | inr e' ↦
                let (g, kept', old) = h.rows_of w t r e' in
                (g, kept', RowOf-Extends S infinity X rows l added g t r added-Extends old)
          ];
        }

  -- When `AddLinearLiteral` succeeds in phase one, for the formula that the abstractor keeps for
  -- the variable, every row is still that of its literal.
  pub add_linear_literal-Represents :
      (difference : Expression Q → Expression Q → Expression Q) (free : Formula Q → Variables)
      (phase : ℕ) (v : Variable) (truth : Bool) (formulas : List (Variable × Formula Q))
      (l l' : Linear Q P)
      → IsDifference S difference
      → (phase == 2) ≡ false
      → Represents S infinity X rows formulas l
      → add_linear_literal S infinity X difference free phase v truth (find_formula v formulas) l
        ≡ some l'
      → Represents S infinity X rows formulas l'
  unfolding add_linear_literal add_row
  add_linear_literal-Represents difference free phase v truth formulas l l' expand one h e =
      elim (Option-cases (find_formula v formulas)) [
        | inl none_kept ↦ subst (Represents S infinity X rows formulas) (ground (arith)) h
        | inr (f, kept) ↦
            let l1 = add_linear_variables S infinity X (free f) l in
            let h1 = add_linear_variables-Represents formulas (free f) l h in
            elim (Option-cases (find_row v.id truth l.to_row)) [
              | inr (row, e1) ↦ subst (Represents S infinity X rows formulas) (ground (arith)) h
              | inl e1 ↦ elim (Option-cases (sense_of S infinity X f truth)) [
                | inl e2 ↦
                    subst (Represents S infinity X rows formulas) {x = l1} (ground (arith)) h1
                | inr (sense, e2) ↦ elim (Bool-cases (is_simple_bound f)) [
                  | inl simple ↦
                      subst (Represents S infinity X rows formulas) {x = l1} (ground (arith)) h1
                  | inr other ↦ elim (Option-cases (operands f)) [
                    | inl e3 ↦ ground (arith)
                    | inr ((lhs, rhs), e3) ↦
                        elim (Option-cases (row_of S infinity X l1 (difference lhs rhs))) [
                          | inl e4 ↦ ground (arith)
                          | inr ((cs, r), e4) ↦ elim (Bool-cases (too_large S infinity X r)) [
                            | inl big ↦ ground (arith)
                            | inr small ↦
                                subst (Represents S infinity X rows formulas)
                                  (sym (append_row-added v truth sense cs r phase l1 one)
                                    ∙ ground (arith))
                                  (added-Represents v truth sense cs r phase l1 one formulas f h1
                                    kept
                                    (λ env y follows.
                                      in_range-relaxed ordered affine infinity X f truth sense lhs
                                        rhs (difference lhs rhs) cs r env y e2 e3
                                        (expand lhs rhs env)
                                        (row_of-RowMeans ordered affine infinity X l1
                                          (difference lhs rhs) cs r env y e4 follows)
                                        small))
                          ]
                        ]
                  ]
                ]
              ]
            ]
      ]
