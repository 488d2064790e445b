-- ===== src/Nnfizer/Depth.antt =====
-- The normal form nests quantifiers no deeper than the formula.
use Prim.Native.Nat.{max}
use dlinear.Base.{◌≤◌, Bool, true, false, not, arith}
use dlinear.Symbolic.Syntax.{
  Formula, Formulas, bot, top, prop, eq, neq, gt, geq, lt, leq, conj, disj, neg, forall, nil, cons,
}
use dlinear.Symbolic.Depth.{depth, depth_all, KeepsDepth}
use dlinear.Symbolic.Library.{Library, insert}
use dlinear.Nnfizer.{visit, visit_all, convert}

module _ {Q : Type 0} {L : Library Q} (keeps : KeepsDepth L) where
  depth_all-insert :
      (f : Formula Q) (gs : Formulas Q) → depth_all (insert L f gs) ≤ max (depth f) (depth_all gs)
  unfolding insert depth
  depth_all-insert f nil = omega arith
  depth_all-insert f (cons g gs) = ground (arith, depth_all-insert f gs)

  mutual
    unfolding visit depth

    depth-visit : (f : Formula Q) (p push : Bool) → depth (visit L f p push) ≤ depth f
    depth-visit bot p push = ground arith
    depth-visit top p push = ground arith
    depth-visit (prop v) p push = ground (arith, keeps.depth-negate (prop v))
    depth-visit (eq d e) p push =
        ground (arith, keeps.depth-negate (eq d e), keeps.depth-not_equal_to d e)
    depth-visit (neq d e) p push =
        ground (arith, keeps.depth-negate (neq d e), keeps.depth-equal_to d e)
    depth-visit (gt d e) p push =
        ground (arith, keeps.depth-negate (gt d e), keeps.depth-less_than_or_equal_to d e)
    depth-visit (geq d e) p push =
        ground (arith, keeps.depth-negate (geq d e), keeps.depth-less_than d e)
    depth-visit (lt d e) p push =
        ground (arith, keeps.depth-negate (lt d e), keeps.depth-greater_than_or_equal_to d e)
    depth-visit (leq d e) p push =
        ground (arith, keeps.depth-negate (leq d e), keeps.depth-greater_than d e)
    depth-visit (conj fs) true push = omega (
      arith,
      keeps.depth-make_conjunction (visit_all L fs true push nil),
      depth_all-visit_all fs true push nil,
    )
    depth-visit (conj fs) false push = omega (
      arith,
      keeps.depth-make_disjunction (visit_all L fs false push nil),
      depth_all-visit_all fs false push nil,
    )
    depth-visit (disj fs) true push = omega (
      arith,
      keeps.depth-make_disjunction (visit_all L fs true push nil),
      depth_all-visit_all fs true push nil,
    )
    depth-visit (disj fs) false push = omega (
      arith,
      keeps.depth-make_conjunction (visit_all L fs false push nil),
      depth_all-visit_all fs false push nil,
    )
    depth-visit (neg f) p push = depth-visit f (not p) push
    depth-visit (forall vs f) p push = ground (arith, keeps.depth-negate (forall vs f))

    depth_all-visit_all :
        (fs : Formulas Q) (p push : Bool) (r : Formulas Q)
        → depth_all (visit_all L fs p push r) ≤ max (depth_all fs) (depth_all r)
    depth_all-visit_all nil p push r = omega arith
    depth_all-visit_all (cons f fs) p push r = omega (
      arith,
      depth_all-visit_all fs p push (insert L (visit L f p push) r),
      depth_all-insert (visit L f p push) r,
      depth-visit f p push,
    )

  pub depth-convert : (f : Formula Q) (push : Bool) → depth (convert L f push) ≤ depth f
  unfolding convert
  depth-convert f push = depth-visit f true push
