-- ===== src/Box/Intervals.antt =====
-- dreal/util/box.h: `Box::Interval`. The empty interval is [1, 0].
use dlinear.Base.{Bool, not, ◌&&◌, if◌then◌else◌}
use dlinear.Symbolic.Meaning.{Structure}

pub record Interval (Q : Type 0) : Type 0 where
  pub lb : Q
  pub ub : Q

-- `Interval(val)`.
abbrev pub point : {Q : Type 0} → Q → Interval Q
point q = record { lb = q; ub = q }

module _ {Q : Type 0} (S : Structure Q) where
  unfoldable pub is_empty : Interval Q → Bool
  is_empty iv = S.equal iv.lb S.one && S.equal iv.ub S.zero

  unfoldable pub is_degenerated : Interval Q → Bool
  is_degenerated iv = S.equal iv.lb iv.ub

  unfoldable pub is_bisectable : Interval Q → Bool
  is_bisectable iv = S.less iv.lb iv.ub

  unfoldable pub diam : Interval Q → Q
  unfolding is_empty
  diam iv = if is_empty iv then S.zero else S.minus iv.ub iv.lb

  unfoldable pub bisect_at : Q → Interval Q → Interval Q × Interval Q
  bisect_at p iv =
      let midpoint = S.plus iv.lb (S.times p (S.minus iv.ub iv.lb)) in
      (record { lb = iv.lb; ub = midpoint }, record { lb = midpoint; ub = iv.ub })

  unfoldable pub empty_interval : Interval Q
  empty_interval = record { lb = S.one; ub = S.zero }

  -- `lb <= x && x <= ub`.
  unfoldable pub contains : Interval Q → Q → Bool
  contains iv x = not (S.less x iv.lb) && not (S.less iv.ub x)
