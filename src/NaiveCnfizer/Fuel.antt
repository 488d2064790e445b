-- ===== src/NaiveCnfizer/Fuel.antt =====
-- The rounds that `convert` starts with are enough: one more changes nothing, at any depth.
use dlinear.Base.{ℕ, zero, suc, ◌<◌, ◌≤◌, true, ◌≡◌, refl, ap, ◌∙◌, arith}
use dlinear.Symbolic.Syntax.{
  Formula, Formulas, bot, top, prop, eq, neq, gt, geq, lt, leq, conj, disj, neg, forall, nil, cons,
}
use dlinear.Symbolic.Library.{Library, insert}
use dlinear.Symbolic.Depth.{depth, depth_all, KeepsDepth}
use dlinear.Nnfizer.{convert as nnf}
use dlinear.Nnfizer.Depth.{depth-convert as depth-nnf}
use dlinear.NaiveCnfizer.{accumulate, visit, visit_all, convert_fuel, convert}

module _ {Q : Type 0} (L : Library Q) (n : ℕ) (a b : Formula Q → Formula Q)
    (same : (g : Formula Q) → depth g < n → a g ≡ b g) where
  mutual
    unfolding visit depth

    visit_cong : (f : Formula Q) → depth f ≤ n → visit L a f ≡ visit L b f
    visit_cong bot h = refl
    visit_cong top h = refl
    visit_cong (prop v) h = refl
    visit_cong (eq d e) h = refl
    visit_cong (neq d e) h = refl
    visit_cong (gt d e) h = refl
    visit_cong (geq d e) h = refl
    visit_cong (lt d e) h = refl
    visit_cong (leq d e) h = refl
    visit_cong (conj fs) h = ap L.make_conjunction (visit_all_cong fs nil h)
    visit_cong (disj fs) h = ap (accumulate L bot) (visit_all_cong fs nil h)
    visit_cong (neg f) h = refl
    visit_cong (forall vs f) h = ap (L.make_forall vs) (same f (omega arith))

    visit_all_cong :
        (fs r : Formulas Q) → depth_all fs ≤ n → visit_all L a fs r ≡ visit_all L b fs r
    visit_all_cong nil r h = refl
    visit_all_cong (cons f fs) r h =
        visit_all_cong fs _ (omega arith)
        ∙ ap (λ g. visit_all L b fs (insert L g r)) (visit_cong f (omega arith))

module _ {Q : Type 0} {L : Library Q} (keeps : KeepsDepth L) where
  pub convert_fuel_stable :
      (n m : ℕ) (f : Formula Q)
      → depth f < n
      → depth f < m
      → convert_fuel L n f ≡ convert_fuel L m f
  unfolding convert_fuel
  convert_fuel_stable zero m f h k = elim h [ ]
  convert_fuel_stable (suc n) zero f h k = elim k [ ]
  convert_fuel_stable (suc n) (suc m) f h k =
      visit_cong L (depth (nnf L f true)) (convert_fuel L n) (convert_fuel L m)
        (λ g l.
          convert_fuel_stable n m g (omega (arith, depth-nnf keeps f true))
            (omega (arith, depth-nnf keeps f true)))
        (nnf L f true) (omega arith)

  -- For a library whose constructors nest no quantifier deeper, `convert` is the visit of the
  -- normal form with `convert` itself called inside quantifiers: the fuel is never used up.
  pub convert_step : (f : Formula Q) → convert L f ≡ visit L (convert L) (nnf L f true)
  unfolding convert convert_fuel
  convert_step f =
      visit_cong L (depth (nnf L f true)) (convert_fuel L (depth f)) (convert L)
        (λ g l.
          convert_fuel_stable (depth f) (suc (depth g)) g (omega (arith, depth-nnf keeps f true))
            (omega arith))
        (nnf L f true) (omega arith)
