-- ===== src/PredicateAbstractor.antt =====
-- dreal/util/predicate_abstractor.cc: every theory atom becomes a Boolean variable. The two maps
-- are association lists, and `next` is the identifier that the next variable gets.
pub mod Maps
pub mod Laws
pub mod Grows
use dlinear.Base.{ℕ, ◌+◌, Bool, Option, none, some, List, [], ◌∷◌, if◌then◌else◌, ◌==◌}
use dlinear.Symbolic.Syntax.{
  Variable, boolean, Formula, Formulas, bot, top, prop, eq, neq, gt, geq, lt, leq, conj, disj, neg,
  forall, nil, cons,
}
use dlinear.Symbolic.Library.{Library, insert}

pub record State (Q : Type 0) : Type 0 where
  pub var_to_formula : List (Variable × Formula Q)
  pub formula_to_var : List (Formula Q × Variable)
  pub next : ℕ

module _ {Q : Type 0} where
  unfoldable pub find_formula : Variable → List (Variable × Formula Q) → Option (Formula Q)
  find_formula v [] = none
  find_formula v ((w, f) ∷ m) = if v.id == w.id then some f else find_formula v m

module _ {Q : Type 0} (L : Library Q) where
  unfoldable pub find_var : Formula Q → List (Formula Q × Variable) → Option Variable
  find_var f [] = none
  find_var f ((g, v) ∷ m) = if L.same f g then some v else find_var f m

  -- `Add`: two calls of `emplace`, which leaves an entry that is there already.
  unfoldable pub add : Variable → Formula Q → State Q → State Q
  unfolding find_formula find_var
  add v f s = record s {
    var_to_formula = elim (find_formula v s.var_to_formula) [
      | none ↦ (v, f) ∷ s.var_to_formula
      | some _ ↦ s.var_to_formula
    ];
    formula_to_var = elim (find_var f s.formula_to_var) [
      | none ↦ (f, v) ∷ s.formula_to_var
      | some _ ↦ s.formula_to_var
    ];
  }

  unfoldable pub visit_atomic : Formula Q → State Q → Formula Q × State Q
  unfolding add
  visit_atomic f s =
      let bvar : Variable = record { id = s.next; type = boolean } in
      elim (find_var f s.formula_to_var) [
        | none ↦ (prop bvar, add bvar f (record s { next = s.next + 1 }))
        | some v ↦ (prop v, s)
      ]

  -- The first lines of `Visit`: a formula that was processed before keeps its variable.
  unfoldable pub reuse : Formula Q → State Q → Formula Q × State Q → Formula Q × State Q
  reuse f s result = elim (find_var f s.formula_to_var) [ none ↦ result | some v ↦ (prop v, s) ]

  abbrev pub negated : Formula Q × State Q → Formula Q × State Q
  negated r = (L.negate r.0, r.1)

  unfoldable mutual
    pub visit : Formula Q → State Q → Formula Q × State Q
    visit bot s = reuse bot s (bot, s)
    visit top s = reuse top s (top, s)
    visit (prop v) s = reuse (prop v) s (prop v, s)
    visit (eq d e) s = reuse (eq d e) s (visit_atomic (eq d e) s)
    visit (neq d e) s = reuse (neq d e) s (negated (visit_atomic (L.equal_to d e) s))
    visit (gt d e) s = reuse (gt d e) s (negated (visit_atomic (L.less_than_or_equal_to d e) s))
    visit (geq d e) s = reuse (geq d e) s (negated (visit_atomic (L.less_than d e) s))
    visit (lt d e) s = reuse (lt d e) s (visit_atomic (lt d e) s)
    visit (leq d e) s = reuse (leq d e) s (visit_atomic (leq d e) s)
    visit (conj fs) s =
        let (gs, s') = visit_all fs nil s in reuse (conj fs) s (L.make_conjunction gs, s')
    visit (disj fs) s =
        let (gs, s') = visit_all fs nil s in reuse (disj fs) s (L.make_disjunction gs, s')
    visit (neg f) s = reuse (neg f) s (negated (visit f s))
    visit (forall vs f) s = reuse (forall vs f) s (visit_atomic (forall vs f) s)

    pub visit_all : Formulas Q → Formulas Q → State Q → Formulas Q × State Q
    visit_all nil result s = (result, s)
    visit_all (cons f fs) result s = let (g, s') = visit f s in visit_all fs (insert L g result) s'

  -- `Convert`, and its overload for a vector of formulas.
  unfoldable pub convert : Formula Q → State Q → Formula Q × State Q
  unfolding visit
  convert f s = visit f s

  unfoldable pub to_set : List (Formula Q) → Formulas Q → Formulas Q
  to_set [] result = result
  to_set (f ∷ fs) result = to_set fs (insert L f result)

  unfoldable pub convert_vector : List (Formula Q) → State Q → Formula Q × State Q
  unfolding convert to_set
  convert_vector fs s = convert (L.make_conjunction (to_set fs nil)) s
