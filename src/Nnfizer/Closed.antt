-- ===== src/Nnfizer/Closed.antt =====
-- The normal form brings in no variable.
use dlinear.Base.{ℕ, Bool, true, false, not, if◌then◌else◌, arith}
use dlinear.Symbolic.Syntax.{
  Formula, Formulas, bot, top, prop, eq, neq, gt, geq, lt, leq, conj, disj, neg, forall, nil, cons,
}
use dlinear.Symbolic.Fits.{Fits, AllFit}
use dlinear.Symbolic.Library.{Library, IsClosed, insert}
use dlinear.Nnfizer.{visit, visit_all, convert}

module _ {Q : Type 0} (L : Library Q) where
  pub insert-AllFit :
      (n : ℕ) (f : Formula Q) (gs : Formulas Q) → Fits n f → AllFit n gs → AllFit n (insert L f gs)
  unfolding insert Fits
  insert-AllFit n f nil hf hs = (hf, tt)
  insert-AllFit n f (cons g gs) hf hs = ground (arith, insert-AllFit n f gs hf hs.1)

module _ {Q : Type 0} {L : Library Q} (closed : IsClosed L) (n : ℕ) where
  either_way : (p : Bool) (f g : Formula Q) → Fits n f → Fits n g → Fits n (if p then f else g)
  either_way true f g hf hg = hf
  either_way false f g hf hg = hg

  mutual
    unfolding visit Fits

    visit-Fits : (f : Formula Q) (p push : Bool) → Fits n f → Fits n (visit L f p push)
    visit-Fits bot p push h = either_way p bot top tt tt
    visit-Fits top p push h = either_way p top bot tt tt
    visit-Fits (prop v) p push h = either_way p _ _ h (closed.negate-Fits n (prop v) h)
    visit-Fits (eq d e) p push h = either_way p _ _ h (
        either_way push _ _ (closed.not_equal_to-Fits n d e h.0 h.1)
          (closed.negate-Fits n (eq d e) h))
    visit-Fits (neq d e) p push h = either_way p _ _ h (
        either_way push _ _ (closed.equal_to-Fits n d e h.0 h.1) (closed.negate-Fits n (neq d e) h))
    visit-Fits (gt d e) p push h = either_way p _ _ h (
        either_way push _ _ (closed.less_than_or_equal_to-Fits n d e h.0 h.1)
          (closed.negate-Fits n (gt d e) h))
    visit-Fits (geq d e) p push h = either_way p _ _ h (
        either_way push _ _ (closed.less_than-Fits n d e h.0 h.1)
          (closed.negate-Fits n (geq d e) h))
    visit-Fits (lt d e) p push h = either_way p _ _ h (
        either_way push _ _ (closed.greater_than_or_equal_to-Fits n d e h.0 h.1)
          (closed.negate-Fits n (lt d e) h))
    visit-Fits (leq d e) p push h = either_way p _ _ h (
        either_way push _ _ (closed.greater_than-Fits n d e h.0 h.1)
          (closed.negate-Fits n (leq d e) h))
    visit-Fits (conj fs) p push h =
        let operands = visit_all-AllFit fs p push nil h tt in
        either_way p _ _ (closed.make_conjunction-Fits n _ operands)
          (closed.make_disjunction-Fits n _ operands)
    visit-Fits (disj fs) p push h =
        let operands = visit_all-AllFit fs p push nil h tt in
        either_way p _ _ (closed.make_disjunction-Fits n _ operands)
          (closed.make_conjunction-Fits n _ operands)
    visit-Fits (neg f) p push h = visit-Fits f (not p) push h
    visit-Fits (forall vs f) p push h = either_way p _ _ h (closed.negate-Fits n (forall vs f) h)

    visit_all-AllFit :
        (fs : Formulas Q) (p push : Bool) (r : Formulas Q)
        → AllFit n fs
        → AllFit n r
        → AllFit n (visit_all L fs p push r)
    visit_all-AllFit nil p push r h hr = hr
    visit_all-AllFit (cons f fs) p push r h hr =
        visit_all-AllFit fs p push _ h.1
          (insert-AllFit L n (visit L f p push) r (visit-Fits f p push h.0) hr)

  pub convert-Fits : (f : Formula Q) (push : Bool) → Fits n f → Fits n (convert L f push)
  unfolding convert
  convert-Fits f push h = visit-Fits f true push h
