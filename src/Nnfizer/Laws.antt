-- ===== src/Nnfizer/Laws.antt =====
-- The normal form says what the formula says.
use dlinear.Base.{
  Bool, true, false, not, ◌&&◌, ◌||◌, ◌≡◌, refl, ◌∙◌, if◌then◌else◌, arith, Bool-cases, inl, inr,
}
use dlinear.Symbolic.Syntax.{
  Formula, Formulas, bot, top, prop, eq, neq, gt, geq, lt, leq, conj, disj, neg, forall, nil, cons,
}
use dlinear.Symbolic.Meaning.{Structure, Env, holds, all_hold, some_holds}
use dlinear.Symbolic.Library.{Library, IsSound, insert}
use dlinear.Nnfizer.{visit, visit_all, convert}

module _ {Q : Type 0} {S : Structure Q} {L : Library Q} (law : IsSound S L) (env : Env Q) where
  pub all_hold-insert :
      (f : Formula Q) (gs : Formulas Q)
      → all_hold S env (insert L f gs) ≡ (holds S env f && all_hold S env gs)
  unfolding insert holds
  all_hold-insert f nil = refl
  all_hold-insert f (cons g gs) = elim (Bool-cases (L.less f g)) [
    | inl p ↦ rw p refl
    | inr p ↦ elim (Bool-cases (L.less g f)) [
      | inl q ↦ rw (p, q) (ground (arith, all_hold-insert f gs))
      | inr q ↦ rw (p, q, law.eq_of_not_less f g p q) (ground arith)
    ]
  ]

  pub some_holds-insert :
      (f : Formula Q) (gs : Formulas Q)
      → some_holds S env (insert L f gs) ≡ (holds S env f || some_holds S env gs)
  unfolding insert holds
  some_holds-insert f nil = refl
  some_holds-insert f (cons g gs) = elim (Bool-cases (L.less f g)) [
    | inl p ↦ rw p refl
    | inr p ↦ elim (Bool-cases (L.less g f)) [
      | inl q ↦ rw (p, q) (ground (arith, some_holds-insert f gs))
      | inr q ↦ rw (p, q, law.eq_of_not_less f g p q) (ground arith)
    ]
  ]

  mutual
    unfolding visit holds

    holds-visit :
        (f : Formula Q) (p push : Bool)
        → holds S env (visit L f p push) ≡ (if p then holds S env f else not (holds S env f))
    holds-visit bot p push = ground arith
    holds-visit top p push = ground arith
    holds-visit (prop v) p push = ground (arith, law.holds-negate env (prop v))
    holds-visit (eq d e) p push =
        ground (arith, law.holds-negate env (eq d e), law.holds-not_equal_to env d e)
    holds-visit (neq d e) p push =
        ground (arith, law.holds-negate env (neq d e), law.holds-equal_to env d e)
    holds-visit (gt d e) p push =
        ground (arith, law.holds-negate env (gt d e), law.holds-less_than_or_equal_to env d e)
    holds-visit (geq d e) p push =
        ground (arith, law.holds-negate env (geq d e), law.holds-less_than env d e)
    holds-visit (lt d e) p push =
        ground (arith, law.holds-negate env (lt d e), law.holds-greater_than_or_equal_to env d e)
    holds-visit (leq d e) p push =
        ground (arith, law.holds-negate env (leq d e), law.holds-greater_than env d e)
    holds-visit (conj fs) true push =
        law.holds-make_conjunction env _ ∙ all_hold-visit_all fs true push nil
    holds-visit (conj fs) false push =
        law.holds-make_disjunction env _ ∙ some_holds-visit_all fs false push nil
    holds-visit (disj fs) true push =
        law.holds-make_disjunction env _ ∙ some_holds-visit_all fs true push nil
    holds-visit (disj fs) false push =
        law.holds-make_conjunction env _ ∙ all_hold-visit_all fs false push nil
    holds-visit (neg f) p push = ground (arith, holds-visit f (not p) push)
    holds-visit (forall vs f) p push = ground (arith, law.holds-negate env (forall vs f))

    all_hold-visit_all :
        (fs : Formulas Q) (p push : Bool) (r : Formulas Q)
        → all_hold S env (visit_all L fs p push r)
          ≡ (all_hold S env r && (if p then all_hold S env fs else not (some_holds S env fs)))
    all_hold-visit_all nil p push r = ground arith
    all_hold-visit_all (cons f fs) p push r =
        all_hold-visit_all fs p push _
        ∙ ground (arith, holds-visit f p push, all_hold-insert (visit L f p push) r)

    some_holds-visit_all :
        (fs : Formulas Q) (p push : Bool) (r : Formulas Q)
        → some_holds S env (visit_all L fs p push r)
          ≡ (some_holds S env r || (if p then some_holds S env fs else not (all_hold S env fs)))
    some_holds-visit_all nil p push r = ground arith
    some_holds-visit_all (cons f fs) p push r =
        some_holds-visit_all fs p push _
        ∙ ground (arith, holds-visit f p push, some_holds-insert (visit L f p push) r)

  -- The negation normal form of a formula, with negations pushed into relations or not, holds where
  -- the formula holds, and nowhere else, for a symbolic library whose constructors keep the
  -- meaning.
  pub holds-convert : (f : Formula Q) (push : Bool) → holds S env (convert L f push) ≡ holds S env f
  unfolding convert
  holds-convert f push = holds-visit f true push
