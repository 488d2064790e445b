-- ===== src/NaiveCnfizer.antt =====
-- dreal/util/naive_cnfizer.cc: conjunctive normal form by distribution. `Convert` starts again on
-- the body of a quantifier, so it runs on fuel: one round for each level of nested quantifiers.
pub mod Laws
pub mod Closed
pub mod Fuel
use dlinear.Base.{ℕ, zero, suc, true}
use dlinear.Symbolic.Syntax.{
  Formula, Formulas, bot, top, prop, eq, neq, gt, geq, lt, leq, conj, disj, neg, forall, nil, cons,
}
use dlinear.Symbolic.Library.{Library, insert}
use dlinear.Symbolic.Depth.{depth}
use dlinear.Nnfizer.{convert as nnf}

module _ {Q : Type 0} (L : Library Q) where
  -- `clauses.insert(c1 || c2)` for every `c1` of the first set.
  unfoldable pub each_with : Formulas Q → Formula Q → Formulas Q → Formulas Q
  each_with nil g clauses = clauses
  each_with (cons c cs) g clauses = each_with cs g (insert L (L.either c g) clauses)

  unfoldable pub with_each : Formula Q → Formulas Q → Formulas Q → Formulas Q
  with_each f nil clauses = clauses
  with_each f (cons d ds) clauses = with_each f ds (insert L (L.either f d) clauses)

  unfoldable pub pairs : Formulas Q → Formulas Q → Formulas Q → Formulas Q
  pairs nil ds clauses = clauses
  pairs (cons c cs) ds clauses = pairs cs ds (with_each c ds clauses)

  -- One step of `accumulate` in `VisitDisjunction`.
  unfoldable pub disjoin : Formula Q → Formula Q → Formula Q
  unfolding each_with with_each pairs insert
  disjoin (conj cs) (conj ds) = L.make_conjunction (pairs cs ds nil)
  disjoin (conj cs) g = L.make_conjunction (each_with cs g nil)
  disjoin f (conj ds) = L.make_conjunction (with_each f ds nil)
  disjoin f g = L.make_conjunction (insert L (L.either f g) nil)

  unfoldable pub accumulate : Formula Q → Formulas Q → Formula Q
  unfolding disjoin
  accumulate f nil = f
  accumulate f (cons g gs) = accumulate (disjoin f g) gs

  -- `inner` is the call of `Convert` on the body of a quantifier.
  unfoldable mutual
    pub visit : (Formula Q → Formula Q) → Formula Q → Formula Q
    visit inner bot = bot
    visit inner top = top
    visit inner (prop v) = prop v
    visit inner (eq d e) = L.both (L.greater_than_or_equal_to d e) (L.less_than_or_equal_to d e)
    visit inner (neq d e) = L.either (L.greater_than d e) (L.less_than d e)
    visit inner (gt d e) = gt d e
    visit inner (geq d e) = geq d e
    visit inner (lt d e) = lt d e
    visit inner (leq d e) = leq d e
    visit inner (conj fs) = L.make_conjunction (visit_all inner fs nil)
    visit inner (disj fs) = accumulate bot (visit_all inner fs nil)
    visit inner (neg f) = neg f
    visit inner (forall vs f) = L.make_forall vs (inner f)

    pub visit_all : (Formula Q → Formula Q) → Formulas Q → Formulas Q → Formulas Q
    visit_all inner nil result = result
    visit_all inner (cons f fs) result = visit_all inner fs (insert L (visit inner f) result)

  -- With no round left the formula is returned as it is; `convert` never comes to that.
  unfoldable pub convert_fuel : ℕ → Formula Q → Formula Q
  convert_fuel zero f = f
  convert_fuel (suc n) f = visit (convert_fuel n) (nnf L f true)

  unfoldable pub convert : Formula Q → Formula Q
  unfolding convert_fuel
  convert f = convert_fuel (suc (depth f)) f
