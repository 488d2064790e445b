-- ===== src/PredicateAbstractor/Grows.antt =====
-- Abstraction keeps the formula of every variable that has one.
use dlinear.Base.{
  ◌+◌, ◌≡◌, refl, none, some, List, [], ◌∷◌, ◌==◌, Bool-cases, Option-cases, inl, inr, arith,
}
use dlinear.Symbolic.Syntax.{
  Variable, boolean, Formula, Formulas, bot, top, prop, eq, neq, gt, geq, lt, leq, conj, disj, neg,
  forall, nil, cons,
}
use dlinear.Symbolic.Library.{Library}
use dlinear.PredicateAbstractor.{
  State, find_formula, find_var, add, visit_atomic, reuse, visit, visit_all, convert,
}

-- `find_formula` reads the identifier only.
pub find_formula-id :
    {Q : Type 0} (v w : Variable) (m : List (Variable × Formula Q))
    → v.id ≡ w.id
    → find_formula v m ≡ find_formula w m
unfolding find_formula
find_formula-id v w [] e = refl
find_formula-id v w ((u, f) ∷ m) e = ground (arith, find_formula-id v w m e)

module _ {Q : Type 0} where
  abbrev pub Grows : List (Variable × Formula Q) → List (Variable × Formula Q) → Type 0
  Grows m m' =
      (v : Variable) (f : Formula Q) → find_formula v m ≡ some f → find_formula v m' ≡ some f

  find_formula-cons :
      (v w : Variable) (f g : Formula Q) (m : List (Variable × Formula Q))
      → find_formula v m ≡ none
      → find_formula w m ≡ some f
      → find_formula w ((v, g) ∷ m) ≡ some f
  unfolding find_formula
  find_formula-cons v w f g m absent e = elim (Bool-cases (w.id == v.id)) [
    | inr other ↦ ground (arith)
    | inl met ↦ absurd (ground (arith, find_formula-id v w m (ground (arith))))
  ]

module _ {Q : Type 0} (L : Library Q) where
  add-Grows :
      (v : Variable) (f : Formula Q) (s : State Q)
      → Grows s.var_to_formula (add L v f s).var_to_formula
  unfolding add
  add-Grows v f s w g e = elim (Option-cases (find_formula v s.var_to_formula)) [
    | inl absent ↦ rw (absent, add) (find_formula-cons v w g f s.var_to_formula absent e)
    | inr (h, there) ↦ rw (there, add) e
  ]

  -- What an operation has to show.
  abbrev GrowsTo : State Q → Formula Q × State Q → Type 0
  GrowsTo s r = Grows s.var_to_formula r.1.var_to_formula

  visit_atomic-Grows : (f : Formula Q) (s : State Q) → GrowsTo s (visit_atomic L f s)
  unfolding visit_atomic
  visit_atomic-Grows f s w g e = elim (Option-cases (find_var L f s.formula_to_var)) [
    | inl absent ↦
        rw (absent, visit_atomic)
          (add-Grows (record { id = s.next; type = boolean }) f (record s { next = s.next + 1 }) w g
            e)
    | inr (v, there) ↦ rw (there, visit_atomic) e
  ]

  reuse-Grows :
      (f : Formula Q) (s : State Q) (r : Formula Q × State Q)
      → GrowsTo s r
      → GrowsTo s (reuse L f s r)
  unfolding reuse
  reuse-Grows f s r h w g e = elim (Option-cases (find_var L f s.formula_to_var)) [
    | inl absent ↦ rw (absent, reuse) (h w g e)
    | inr (v, there) ↦ rw (there, reuse) e
  ]

  mutual
    unfolding visit

    visit-Grows : (f : Formula Q) (s : State Q) → GrowsTo s (visit L f s)
    visit-Grows bot s = reuse-Grows bot s _ (λ w g e. e)
    visit-Grows top s = reuse-Grows top s _ (λ w g e. e)
    visit-Grows (prop v) s = reuse-Grows (prop v) s _ (λ w g e. e)
    visit-Grows (eq d e) s = reuse-Grows (eq d e) s _ (visit_atomic-Grows _ s)
    visit-Grows (neq d e) s = reuse-Grows (neq d e) s _ (visit_atomic-Grows _ s)
    visit-Grows (gt d e) s = reuse-Grows (gt d e) s _ (visit_atomic-Grows _ s)
    visit-Grows (geq d e) s = reuse-Grows (geq d e) s _ (visit_atomic-Grows _ s)
    visit-Grows (lt d e) s = reuse-Grows (lt d e) s _ (visit_atomic-Grows _ s)
    visit-Grows (leq d e) s = reuse-Grows (leq d e) s _ (visit_atomic-Grows _ s)
    visit-Grows (conj fs) s = reuse-Grows (conj fs) s _ (visit_all-Grows fs nil s)
    visit-Grows (disj fs) s = reuse-Grows (disj fs) s _ (visit_all-Grows fs nil s)
    visit-Grows (neg f) s = reuse-Grows (neg f) s _ (visit-Grows f s)
    visit-Grows (forall vs f) s = reuse-Grows (forall vs f) s _ (visit_atomic-Grows (forall vs f) s)

    visit_all-Grows :
        (fs r : Formulas Q) (s : State Q)
        → Grows s.var_to_formula (visit_all L fs r s).1.var_to_formula
    visit_all-Grows nil r s w g e = e
    visit_all-Grows (cons f fs) r s w g e = visit_all-Grows fs _ _ w g (visit-Grows f s w g e)

  pub convert-Grows : (f : Formula Q) (s : State Q) → GrowsTo s (convert L f s)
  unfolding convert
  convert-Grows f s = visit-Grows f s
