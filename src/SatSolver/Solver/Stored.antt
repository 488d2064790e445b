-- ===== src/SatSolver/Solver/Stored.antt =====
-- `DoAddClause` stores the literals of the clause, with their signs.
use dlinear.Base.{
  ℕ, Bool, true, false, ◌≡◌, refl, sym, ◌∙◌, ap, Option, none, some, List, [], ◌∷◌, Option-cases,
  inl, inr, arith, ℤ, signed,
}
use dlinear.Symbolic.Syntax.{Variable, Expression, Formula, Formulas, prop, neg, nil, cons}
use dlinear.Symbolic.Meaning.{Structure}
use dlinear.Symbolic.Library.{Library}
use dlinear.PredicateAbstractor.{find_formula}
use dlinear.Scoped.Table.{ScopedMap}
use dlinear.Scoped.Table as Table
use dlinear.SatSolver.Linear.{Soplex}
use dlinear.SatSolver.Linear.Rows.{add_linear_literal}
use dlinear.SatSolver.Clauses.{begin_clause, end_clause, update_lookup}
use dlinear.SatSolver.Clauses.Store.{update_all, add_clause}
use dlinear.SatSolver.Solver.{
  Picosat, Solver, same_id, add_signed, add_literal, add_literals, do_add_clause, operands_of,
}

-- The picosat literal of a variable with a sign, and those of a list of Boolean literals.
abbrev pub signed_of : ScopedMap ℕ ℕ → Variable → Bool → Option ℤ
signed_of m v sign = elim (Table.at same_id m v.id) [ none ↦ none | some n ↦ some (signed sign n) ]

module _ {Q : Type 0} where
  abbrev pub literal_of : ScopedMap ℕ ℕ → Formula Q → Option ℤ
  literal_of m (prop v) = signed_of m v true
  literal_of m (neg (prop v)) = signed_of m v false
  literal_of m _ = none

  abbrev pub literals_of : ScopedMap ℕ ℕ → Formulas Q → Option (List ℤ)
  literals_of m nil = some []
  literals_of m (cons f fs) = elim (literal_of m f) [
    | none ↦ none
    | some i ↦ elim (literals_of m fs) [ none ↦ none | some is ↦ some (i ∷ is) ]
  ]

module _ {Q P Z : Type 0} (S : Structure Q) (infinity : Q) (X : Soplex Q P) (L : Library Q)
    (I : Picosat Z) (difference : Expression Q → Expression Q → Expression Q) (phase : ℕ) where
  add_signed-stored :
      (v : Variable) (sign : Bool) (s s' : Solver Q P Z)
      → add_signed S infinity X L I difference phase v sign false s ≡ some s'
      → (i : ℤ) × (signed_of s.to_sat_var v sign ≡ some i)
        × (s'.clauses ≡ update_lookup i false s.clauses)
        × (s'.to_sat_var ≡ s.to_sat_var)
  unfolding add_signed
  add_signed-stored v sign s s' h = elim (Option-cases (Table.at same_id s.to_sat_var v.id)) [
    | inl e ↦ ground (arith)
    | inr (n, e) ↦
        elim (Option-cases (
          add_linear_literal S infinity X difference L.free_variables phase v sign
            (find_formula v s.abstractor.var_to_formula) s.linear)) [
              | inl e1 ↦ ground (arith)
              | inr (l, e1) ↦ (signed sign n, ground (arith), ground (arith), ground (arith))
            ]
  ]

  add_literal-stored :
      (f : Formula Q) (s s' : Solver Q P Z)
      → add_literal S infinity X L I difference phase f s ≡ some s'
      → (i : ℤ) × (literal_of s.to_sat_var f ≡ some i)
        × (s'.clauses ≡ update_lookup i false s.clauses)
        × (s'.to_sat_var ≡ s.to_sat_var)
  unfolding add_literal
  add_literal-stored (prop v) s s' h = add_signed-stored v true s s' h
  add_literal-stored (neg (prop v)) s s' h = add_signed-stored v false s s' h
  add_literal-stored _ s s' h = ground (arith)

  add_literals-stored :
      (fs : Formulas Q) (s s' : Solver Q P Z)
      → add_literals S infinity X L I difference phase fs s ≡ some s'
      → (is : List ℤ) × (literals_of s.to_sat_var fs ≡ some is)
        × (s'.clauses ≡ update_all is s.clauses)
  unfolding add_literals update_all
  add_literals-stored nil s s' h = ([], refl, ground (arith))
  add_literals-stored (cons f fs) s s' h =
      elim (Option-cases (add_literal S infinity X L I difference phase f s)) [
        | inl e ↦ ground (arith)
        | inr (s1, e) ↦
            let (i, here, clauses, vars) = add_literal-stored f s s1 e in
            let (is, rest, all) = add_literals-stored fs s1 s' (ground (arith)) in
            (
              i ∷ is,
              ground (arith, sym (ap (λ m. literals_of m fs) vars) ∙ rest),
              all ∙ ap (update_all is) clauses,
            )
      ]

  -- When `DoAddClause` succeeds, every operand of the clause has a picosat literal, and the copy of
  -- the clauses and the lookup table are those with the clause of these literals added.
  pub do_add_clause-stored :
      (f : Formula Q) (s s' : Solver Q P Z)
      → do_add_clause S infinity X L I difference phase f s ≡ some s'
      → (is : List ℤ) × (literals_of s.to_sat_var (operands_of S infinity X L I difference phase f)
          ≡ some is)
        × (s'.clauses ≡ add_clause is s.clauses)
  unfolding do_add_clause add_clause
  do_add_clause-stored f s s' h =
      let fs = operands_of S infinity X L I difference phase f in
      let s0 : Solver Q P Z = record s { clauses = begin_clause s.clauses } in
      elim (Option-cases (add_literals S infinity X L I difference phase fs s0)) [
        | inl e ↦ ground (arith)
        | inr (s1, e) ↦
            let (is, found, clauses) = add_literals-stored fs s0 s1 e in
            let same : s'.clauses ≡ end_clause s1.clauses = ground (arith) in
            (is, found, same ∙ ap end_clause clauses)
      ]
