-- ===== src/Nnfizer.antt =====
-- dreal/util/nnfizer.cc: negation normal form.
pub mod Laws
pub mod Closed
pub mod Depth
use dlinear.Base.{Bool, true, not, if◌then◌else◌}
use dlinear.Symbolic.Syntax.{
  Formula, Formulas, bot, top, prop, eq, neq, gt, geq, lt, leq, conj, disj, neg, forall, nil, cons,
}
use dlinear.Symbolic.Library.{Library, insert}

module _ {Q : Type 0} (L : Library Q) where
  -- `polarity` false stands for a negation above; `push` is `push_negation_into_relationals`.
  -- `visit_all` is the call of `map` over a set of operands.
  unfoldable mutual
    pub visit : Formula Q → Bool → Bool → Formula Q
    visit bot polarity push = if polarity then bot else top
    visit top polarity push = if polarity then top else bot
    visit (prop v) polarity push = if polarity then prop v else L.negate (prop v)
    visit (eq d e) polarity push =
        if polarity then eq d e else if push then L.not_equal_to d e else L.negate (eq d e)
    visit (neq d e) polarity push =
        if polarity then neq d e else if push then L.equal_to d e else L.negate (neq d e)
    visit (gt d e) polarity push =
        if polarity then gt d e else if push then L.less_than_or_equal_to d e else L.negate (gt d e)
    visit (geq d e) polarity push =
        if polarity then geq d e else if push then L.less_than d e else L.negate (geq d e)
    visit (lt d e) polarity push =
        if polarity
        then lt d e
        else if push
        then L.greater_than_or_equal_to d e
        else L.negate (lt d e)
    visit (leq d e) polarity push =
        if polarity then leq d e else if push then L.greater_than d e else L.negate (leq d e)
    visit (conj fs) polarity push =
        let operands = visit_all fs polarity push nil in
        if polarity then L.make_conjunction operands else L.make_disjunction operands
    visit (disj fs) polarity push =
        let operands = visit_all fs polarity push nil in
        if polarity then L.make_disjunction operands else L.make_conjunction operands
    visit (neg f) polarity push = visit f (not polarity) push
    visit (forall vs f) polarity push = if polarity then forall vs f else L.negate (forall vs f)

    pub visit_all : Formulas Q → Bool → Bool → Formulas Q → Formulas Q
    visit_all nil polarity push result = result
    visit_all (cons f fs) polarity push result =
        visit_all fs polarity push (insert L (visit f polarity push) result)

  unfoldable pub convert : Formula Q → Bool → Formula Q
  unfolding visit
  convert f push = visit f true push
