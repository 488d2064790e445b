-- ===== src/PredicateAbstractor/Maps.antt =====
-- The two maps hold the same pairs, and every new variable is new.
use dlinear.Base.{
  ◌+◌, ◌<◌, ◌≡◌, refl, sym, ◌∙◌, ap, none, List, [], ◌∷◌, All, All-imp, Option-cases, inl, inr,
  arith,
}
use dlinear.Symbolic.Syntax.{
  Variable, boolean, Formula, Formulas, bot, top, prop, eq, neq, gt, geq, lt, leq, conj, disj, neg,
  forall, nil, cons,
}
use dlinear.Symbolic.Library.{Library}
use dlinear.PredicateAbstractor.{
  State, find_formula, find_var, add, visit_atomic, reuse, visit, visit_all, convert,
}

abbrev pub swap : {Q : Type 0} → List (Formula Q × Variable) → List (Variable × Formula Q)
swap [] = []
swap ((f, v) ∷ m) = (v, f) ∷ swap m

module _ {Q : Type 0} where
  pub record IsValid (s : State Q) : Type 0 where
    pub below : All (λ p. p.0.id < s.next) s.var_to_formula
    pub mirror : s.var_to_formula ≡ swap s.formula_to_var

  find_formula_fresh :
      (v : Variable) (m : List (Variable × Formula Q))
      → All (λ p. p.0.id < v.id) m
      → find_formula v m ≡ none
  unfolding find_formula
  find_formula_fresh v [] h = refl
  find_formula_fresh v ((w, f) ∷ m) h = ground (arith, find_formula_fresh v m h.1)

module _ {Q : Type 0} (L : Library Q) where
  var_to_formula-add :
      (v : Variable) (f : Formula Q) (s : State Q)
      → find_formula v s.var_to_formula ≡ none
      → (add L v f s).var_to_formula ≡ (v, f) ∷ s.var_to_formula
  unfolding add
  var_to_formula-add v f s e = rw (e, add)

  formula_to_var-add :
      (v : Variable) (f : Formula Q) (s : State Q)
      → find_var L f s.formula_to_var ≡ none
      → (add L v f s).formula_to_var ≡ (f, v) ∷ s.formula_to_var
  unfolding add
  formula_to_var-add v f s e = rw (e, add)

  next-add : (v : Variable) (f : Formula Q) (s : State Q) → (add L v f s).next ≡ s.next
  unfolding add
  next-add v f s = refl

  add-IsValid :
      (f : Formula Q) (s : State Q)
      → IsValid s
      → find_var L f s.formula_to_var ≡ none
      → IsValid (add L (record { id = s.next; type = boolean }) f (record s { next = s.next + 1 }))
  unfolding add
  add-IsValid f s valid e =
      let v : Variable = record { id = s.next; type = boolean } in
      let t : State Q = record s { next = s.next + 1 } in
      let p = var_to_formula-add v f t (find_formula_fresh v s.var_to_formula valid.below) in
      record {
        below =
            rw (p, next-add v f t)
              (
                omega arith,
                All-imp {Q = λ p. p.0.id < s.next + 1} (λ q h. omega arith) s.var_to_formula
                    valid.below,
              );
        mirror =
            p ∙ (ap (λ m. (v, f) ∷ m) valid.mirror ∙ sym (ap swap (formula_to_var-add v f t e)));
      }

  visit_atomic-IsValid : (f : Formula Q) (s : State Q) → IsValid s → IsValid (visit_atomic L f s).1
  unfolding visit_atomic
  visit_atomic-IsValid f s valid = elim (Option-cases (find_var L f s.formula_to_var)) [
    | inl e ↦ rw (e, visit_atomic) (add-IsValid f s valid e)
    | inr (v, e) ↦ rw (e, visit_atomic) valid
  ]

  reuse-IsValid :
      (f : Formula Q) (s : State Q) (r : Formula Q × State Q)
      → IsValid s
      → IsValid r.1
      → IsValid (reuse L f s r).1
  unfolding reuse
  reuse-IsValid f s r valid h = elim (Option-cases (find_var L f s.formula_to_var)) [
    | inl e ↦ rw (e, reuse) h
    | inr (v, e) ↦ rw (e, reuse) valid
  ]

  mutual
    unfolding visit

    visit-IsValid : (f : Formula Q) (s : State Q) → IsValid s → IsValid (visit L f s).1
    visit-IsValid bot s h = reuse-IsValid bot s _ h h
    visit-IsValid top s h = reuse-IsValid top s _ h h
    visit-IsValid (prop v) s h = reuse-IsValid (prop v) s _ h h
    visit-IsValid (eq d e) s h = reuse-IsValid (eq d e) s _ h (visit_atomic-IsValid _ s h)
    visit-IsValid (neq d e) s h = reuse-IsValid (neq d e) s _ h (visit_atomic-IsValid _ s h)
    visit-IsValid (gt d e) s h = reuse-IsValid (gt d e) s _ h (visit_atomic-IsValid _ s h)
    visit-IsValid (geq d e) s h = reuse-IsValid (geq d e) s _ h (visit_atomic-IsValid _ s h)
    visit-IsValid (lt d e) s h = reuse-IsValid (lt d e) s _ h (visit_atomic-IsValid _ s h)
    visit-IsValid (leq d e) s h = reuse-IsValid (leq d e) s _ h (visit_atomic-IsValid _ s h)
    visit-IsValid (conj fs) s h = reuse-IsValid (conj fs) s _ h (visit_all-IsValid fs nil s h)
    visit-IsValid (disj fs) s h = reuse-IsValid (disj fs) s _ h (visit_all-IsValid fs nil s h)
    visit-IsValid (neg f) s h = reuse-IsValid (neg f) s _ h (visit-IsValid f s h)
    visit-IsValid (forall vs f) s h =
        reuse-IsValid (forall vs f) s _ h (visit_atomic-IsValid (forall vs f) s h)

    visit_all-IsValid :
        (fs r : Formulas Q) (s : State Q) → IsValid s → IsValid (visit_all L fs r s).1
    visit_all-IsValid nil r s h = h
    visit_all-IsValid (cons f fs) r s h = visit_all-IsValid fs _ _ (visit-IsValid f s h)

  -- Abstraction keeps the two maps mirror images, with identifiers below the counter.
  pub convert-IsValid : (f : Formula Q) (s : State Q) → IsValid s → IsValid (convert L f s).1
  unfolding convert
  convert-IsValid f s h = visit-IsValid f s h
