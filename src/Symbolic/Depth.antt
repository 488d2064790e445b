-- ===== src/Symbolic/Depth.antt =====
-- How deep quantifiers are nested in a formula, which bounds the rounds of a conversion that starts
-- again inside a quantifier.
use Prim.Native.Nat.{max}
use dlinear.Base.{ℕ, ◌+◌, ◌≤◌, ◌≡◌}
use dlinear.Symbolic.Syntax.{
  Expression, Formula, Formulas, bot, top, prop, eq, neq, gt, geq, lt, leq, conj, disj, neg, forall,
  nil, cons,
}
use dlinear.Symbolic.Library.{Library}

module _ {Q : Type 0} where
  unfoldable mutual
    pub depth : Formula Q → ℕ
    depth bot = 0
    depth top = 0
    depth (prop v) = 0
    depth (eq d e) = 0
    depth (neq d e) = 0
    depth (gt d e) = 0
    depth (geq d e) = 0
    depth (lt d e) = 0
    depth (leq d e) = 0
    depth (conj fs) = depth_all fs
    depth (disj fs) = depth_all fs
    depth (neg f) = depth f
    depth (forall vs f) = depth f + 1

    pub depth_all : Formulas Q → ℕ
    depth_all nil = 0
    depth_all (cons f fs) = max (depth f) (depth_all fs)

-- The constructors that the normal form calls nest no quantifier deeper.
pub record KeepsDepth {Q : Type 0} (L : Library Q) : Type 0 where
  pub depth-negate : (f : Formula Q) → depth (L.negate f) ≤ depth f
  pub depth-make_conjunction : (fs : Formulas Q) → depth (L.make_conjunction fs) ≤ depth_all fs
  pub depth-make_disjunction : (fs : Formulas Q) → depth (L.make_disjunction fs) ≤ depth_all fs
  pub depth-equal_to : (d e : Expression Q) → depth (L.equal_to d e) ≡ 0
  pub depth-not_equal_to : (d e : Expression Q) → depth (L.not_equal_to d e) ≡ 0
  pub depth-greater_than : (d e : Expression Q) → depth (L.greater_than d e) ≡ 0
  pub depth-greater_than_or_equal_to :
      (d e : Expression Q) → depth (L.greater_than_or_equal_to d e) ≡ 0
  pub depth-less_than : (d e : Expression Q) → depth (L.less_than d e) ≡ 0
  pub depth-less_than_or_equal_to : (d e : Expression Q) → depth (L.less_than_or_equal_to d e) ≡ 0
