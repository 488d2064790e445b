-- ===== src/NaiveCnfizer/Closed.antt =====
-- Distribution brings in no variable.
use dlinear.Base.{ℕ, zero, suc, true}
use dlinear.Symbolic.Syntax.{
  Formula, Formulas, bot, top, prop, eq, neq, gt, geq, lt, leq, conj, disj, neg, forall, nil, cons,
}
use dlinear.Symbolic.Fits.{Fits, AllFit}
use dlinear.Symbolic.Depth.{depth}
use dlinear.Symbolic.Library.{Library, IsClosed, insert}
use dlinear.Nnfizer.{convert as nnf}
use dlinear.Nnfizer.Closed.{insert-AllFit, convert-Fits as nnf-Fits}
use dlinear.NaiveCnfizer.{
  each_with, with_each, pairs, disjoin, accumulate, visit, visit_all, convert_fuel, convert,
}

module _ {Q : Type 0} {L : Library Q} (closed : IsClosed L) (n : ℕ) where
  each_with-AllFit :
      (cs : Formulas Q) (g : Formula Q) (r : Formulas Q)
      → AllFit n cs
      → Fits n g
      → AllFit n r
      → AllFit n (each_with L cs g r)
  unfolding each_with Fits
  each_with-AllFit nil g r hc hg hr = hr
  each_with-AllFit (cons c cs) g r hc hg hr =
      each_with-AllFit cs g _ hc.1 hg
        (insert-AllFit L n (L.either c g) r (closed.either-Fits n c g hc.0 hg) hr)

  with_each-AllFit :
      (f : Formula Q) (ds r : Formulas Q)
      → Fits n f
      → AllFit n ds
      → AllFit n r
      → AllFit n (with_each L f ds r)
  unfolding with_each Fits
  with_each-AllFit f nil r hf hd hr = hr
  with_each-AllFit f (cons d ds) r hf hd hr =
      with_each-AllFit f ds _ hf hd.1
        (insert-AllFit L n (L.either f d) r (closed.either-Fits n f d hf hd.0) hr)

  pairs-AllFit :
      (cs ds r : Formulas Q) → AllFit n cs → AllFit n ds → AllFit n r → AllFit n (pairs L cs ds r)
  unfolding pairs Fits
  pairs-AllFit nil ds r hc hd hr = hr
  pairs-AllFit (cons c cs) ds r hc hd hr =
      pairs-AllFit cs ds _ hc.1 hd (with_each-AllFit c ds r hc.0 hd hr)

  single-Fits :
      (f g : Formula Q)
      → Fits n f
      → Fits n g
      → Fits n (L.make_conjunction (insert L (L.either f g) nil))
  single-Fits f g hf hg =
      closed.make_conjunction-Fits n _
        (insert-AllFit L n (L.either f g) nil (closed.either-Fits n f g hf hg) (unfold Fits in tt))

  disjoin-Fits : (f g : Formula Q) → Fits n f → Fits n g → Fits n (disjoin L f g)
  unfolding disjoin
  disjoin-Fits (conj cs) (conj ds) hf hg =
      closed.make_conjunction-Fits n _ (unfold Fits in pairs-AllFit cs ds nil hf hg tt)
  disjoin-Fits (conj cs) g hf hg =
      closed.make_conjunction-Fits n _ (unfold Fits in each_with-AllFit cs g nil hf hg tt)
  disjoin-Fits f (conj ds) hf hg =
      closed.make_conjunction-Fits n _ (unfold Fits in with_each-AllFit f ds nil hf hg tt)
  disjoin-Fits f g hf hg = single-Fits f g hf hg

  accumulate-Fits :
      (f : Formula Q) (gs : Formulas Q) → Fits n f → AllFit n gs → Fits n (accumulate L f gs)
  unfolding accumulate Fits
  accumulate-Fits f nil hf hs = hf
  accumulate-Fits f (cons g gs) hf hs =
      accumulate-Fits (disjoin L f g) gs (disjoin-Fits f g hf hs.0) hs.1

module _ {Q : Type 0} {L : Library Q} (closed : IsClosed L) (n : ℕ) (inner : Formula Q → Formula Q)
    (inner-Fits : (f : Formula Q) → Fits n f → Fits n (inner f)) where
  mutual
    unfolding visit Fits

    visit-Fits : (f : Formula Q) → Fits n f → Fits n (visit L inner f)
    visit-Fits bot h = tt
    visit-Fits top h = tt
    visit-Fits (prop v) h = h
    visit-Fits (eq d e) h =
        closed.both-Fits n _ _ (closed.greater_than_or_equal_to-Fits n d e h.0 h.1)
          (closed.less_than_or_equal_to-Fits n d e h.0 h.1)
    visit-Fits (neq d e) h =
        closed.either-Fits n _ _ (closed.greater_than-Fits n d e h.0 h.1)
          (closed.less_than-Fits n d e h.0 h.1)
    visit-Fits (gt d e) h = h
    visit-Fits (geq d e) h = h
    visit-Fits (lt d e) h = h
    visit-Fits (leq d e) h = h
    visit-Fits (conj fs) h = closed.make_conjunction-Fits n _ (visit_all-AllFit fs nil h tt)
    visit-Fits (disj fs) h =
        accumulate-Fits closed n bot (visit_all L inner fs nil) tt (visit_all-AllFit fs nil h tt)
    visit-Fits (neg f) h = h
    visit-Fits (forall vs f) h = closed.make_forall-Fits n vs (inner f) h.0 h.1 (inner-Fits f h.2)

    visit_all-AllFit :
        (fs r : Formulas Q) → AllFit n fs → AllFit n r → AllFit n (visit_all L inner fs r)
    visit_all-AllFit nil r h hr = hr
    visit_all-AllFit (cons f fs) r h hr =
        visit_all-AllFit fs _ h.1 (insert-AllFit L n (visit L inner f) r (visit-Fits f h.0) hr)

module _ {Q : Type 0} {L : Library Q} (closed : IsClosed L) where
  convert_fuel-Fits : (k n : ℕ) (f : Formula Q) → Fits n f → Fits n (convert_fuel L k f)
  unfolding convert_fuel
  convert_fuel-Fits zero n f h = h
  convert_fuel-Fits (suc k) n f h =
      visit-Fits closed n (convert_fuel L k) (convert_fuel-Fits k n) (nnf L f true)
        (nnf-Fits closed n f true h)

  pub convert-Fits : (n : ℕ) (f : Formula Q) → Fits n f → Fits n (convert L f)
  unfolding convert
  convert-Fits n f h = convert_fuel-Fits (suc (depth f)) n f h
