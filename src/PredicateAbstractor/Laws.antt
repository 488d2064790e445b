-- ===== src/PredicateAbstractor/Laws.antt =====
-- Under an environment that gives each new variable the truth of its atom, the abstraction of a
-- formula is true exactly where the formula is.
use dlinear.Base.{
  subst, ◌+◌, not, ◌&&◌, ◌||◌, ◌≡◌, refl, sym, ◌∙◌, ap, none, some, List, [], ◌∷◌, All, Bool-cases,
  Option-cases, inl, inr, arith,
}
use dlinear.Symbolic.Syntax.{
  Variable, Formula, Formulas, bot, top, prop, eq, neq, gt, geq, lt, leq, conj, disj, neg, forall,
  nil, cons,
}
use dlinear.Symbolic.Meaning.{Structure, Env, holds, all_hold, some_holds}
use dlinear.Symbolic.Library.{Library, IsSound, insert}
use dlinear.Nnfizer.Laws.{all_hold-insert, some_holds-insert}
use dlinear.PredicateAbstractor.{
  State, find_var, add, visit_atomic, reuse, negated, visit, visit_all, convert,
}

-- Each variable of the map is as true as its formula.
abbrev pub Reads : {Q : Type 0} → Structure Q → Env Q → List (Formula Q × Variable) → Type 0
Reads S env m = All (λ p. env.truth p.1.id ≡ holds S env p.0) m

module _ {Q : Type 0} {S : Structure Q} {L : Library Q} (law : IsSound S L) (env : Env Q) where
  find_var-Reads :
      (f : Formula Q) (m : List (Formula Q × Variable)) (v : Variable)
      → find_var L f m ≡ some v
      → Reads S env m
      → env.truth v.id ≡ holds S env f
  unfolding find_var
  find_var-Reads f [] v e h = cc
  find_var-Reads f ((g, w) ∷ m) v e h = elim (Bool-cases (L.same f g)) [
    | inl p ↦ ground (arith, law.eq_of_same f g p)
    | inr p ↦ find_var-Reads f m v (ground arith) h.1
  ]

  -- What an operation has to show: its result says what `f` says, and the map has only grown.
  abbrev Faithful : Formula Q → State Q → Formula Q × State Q → Type 0
  Faithful f s r =
      Reads S env r.1.formula_to_var
      → (holds S env r.0 ≡ holds S env f) × Reads S env s.formula_to_var

  formula_to_var-add :
      (v : Variable) (f : Formula Q) (s : State Q)
      → find_var L f s.formula_to_var ≡ none
      → (add L v f s).formula_to_var ≡ (f, v) ∷ s.formula_to_var
  unfolding add
  formula_to_var-add v f s e = rw (e, add)

  Faithful-visit_atomic : (f : Formula Q) (s : State Q) → Faithful f s (visit_atomic L f s)
  unfolding visit_atomic holds
  Faithful-visit_atomic f s = elim (Option-cases (find_var L f s.formula_to_var)) [
    | inl e ↦
        rw (e, visit_atomic)
          (λ h.
            let k =
              subst (Reads S env) (formula_to_var-add _ f (record s { next = s.next + 1 }) e) h in
            (k.0, k.1))
    | inr (v, e) ↦ rw (e, visit_atomic) (λ h. (find_var-Reads f s.formula_to_var v e h, h))
  ]

  Faithful-reuse :
      (f : Formula Q) (s : State Q) (r : Formula Q × State Q)
      → Faithful f s r
      → Faithful f s (reuse L f s r)
  unfolding reuse holds
  Faithful-reuse f s r t = elim (Option-cases (find_var L f s.formula_to_var)) [
    | inl e ↦ rw (e, reuse) t
    | inr (v, e) ↦ rw (e, reuse) (λ h. (find_var-Reads f s.formula_to_var v e h, h))
  ]

  Faithful-negated :
      (f g : Formula Q) (s : State Q) (r : Formula Q × State Q)
      → Faithful f s r
      → holds S env g ≡ not (holds S env f)
      → Faithful g s (negated L r)
  Faithful-negated f g s r t e h =
      let (p, q) = t h in (law.holds-negate env r.0 ∙ (ap not p ∙ sym e), q)

  mutual
    unfolding visit holds

    Faithful-visit : (f : Formula Q) (s : State Q) → Faithful f s (visit L f s)
    Faithful-visit bot s = Faithful-reuse bot s _ (λ h. (refl, h))
    Faithful-visit top s = Faithful-reuse top s _ (λ h. (refl, h))
    Faithful-visit (prop v) s = Faithful-reuse (prop v) s _ (λ h. (refl, h))
    Faithful-visit (eq d e) s = Faithful-reuse (eq d e) s _ (Faithful-visit_atomic (eq d e) s)
    Faithful-visit (neq d e) s = Faithful-reuse (neq d e) s _ (
        Faithful-negated (L.equal_to d e) (neq d e) s (visit_atomic L (L.equal_to d e) s)
          (Faithful-visit_atomic (L.equal_to d e) s) (ap not (sym (law.holds-equal_to env d e))))
    Faithful-visit (gt d e) s = Faithful-reuse (gt d e) s _ (
        Faithful-negated (L.less_than_or_equal_to d e) (gt d e) s
          (visit_atomic L (L.less_than_or_equal_to d e) s)
          (Faithful-visit_atomic (L.less_than_or_equal_to d e) s)
          (ground (arith, law.holds-less_than_or_equal_to env d e)))
    Faithful-visit (geq d e) s = Faithful-reuse (geq d e) s _ (
        Faithful-negated (L.less_than d e) (geq d e) s (visit_atomic L (L.less_than d e) s)
          (Faithful-visit_atomic (L.less_than d e) s) (ground (arith, law.holds-less_than env d e)))
    Faithful-visit (lt d e) s = Faithful-reuse (lt d e) s _ (Faithful-visit_atomic (lt d e) s)
    Faithful-visit (leq d e) s = Faithful-reuse (leq d e) s _ (Faithful-visit_atomic (leq d e) s)
    Faithful-visit (conj fs) s = Faithful-reuse (conj fs) s _ (λ h.
        let (p, _, q) = Faithful-visit_all fs nil s h in (law.holds-make_conjunction env _ ∙ p, q))
    Faithful-visit (disj fs) s = Faithful-reuse (disj fs) s _ (λ h.
        let (_, p, q) = Faithful-visit_all fs nil s h in (law.holds-make_disjunction env _ ∙ p, q))
    Faithful-visit (neg f) s =
        Faithful-reuse (neg f) s _
          (Faithful-negated f (neg f) s (visit L f s) (Faithful-visit f s) refl)
    Faithful-visit (forall vs f) s =
        Faithful-reuse (forall vs f) s _ (Faithful-visit_atomic (forall vs f) s)

    Faithful-visit_all :
        (fs r : Formulas Q) (s : State Q)
        → Reads S env (visit_all L fs r s).1.formula_to_var
        → (all_hold S env (visit_all L fs r s).0 ≡ (all_hold S env r && all_hold S env fs))
          × (some_holds S env (visit_all L fs r s).0 ≡ (some_holds S env r || some_holds S env fs))
          × Reads S env s.formula_to_var
    Faithful-visit_all nil r s h = (ground arith, ground arith, h)
    Faithful-visit_all (cons f fs) r s h =
        let (g, s') = visit L f s in
        let (p, q, mid) = Faithful-visit_all fs (insert L g r) s' h in
        let (e, start) = Faithful-visit f s mid in
        (
          p ∙ ground (arith, e, all_hold-insert law env g r),
          q ∙ ground (arith, e, some_holds-insert law env g r),
          start,
        )

  -- Under an environment that gives every variable of the resulting map the truth of its formula,
  -- the abstraction of a formula is true exactly where the formula is, and the environment gave
  -- every variable of the map before the truth of its formula.
  pub holds-convert_abstracted :
      (f : Formula Q) (s : State Q)
      → Reads S env (convert L f s).1.formula_to_var
      → (holds S env (convert L f s).0 ≡ holds S env f) × Reads S env s.formula_to_var
  unfolding convert
  holds-convert_abstracted f s h = Faithful-visit f s h
