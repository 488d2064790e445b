-- ===== src/SatSolver/Linear/Ranges.antt =====
-- The range that `EnableLinearLiteral` gives to a row admits the numbers that satisfy the literal.
use dlinear.Base.{ℕ, Bool, true, false, not, ◌&&◌, ◌≡◌, ap, ◌∙◌, some, List, arith}
use dlinear.Symbolic.Syntax.{Expression, Formula, eq, neq, gt, geq, lt, leq}
use dlinear.Symbolic.Meaning.{Structure, IsOrdered, Env, value_of}
use dlinear.SatSolver.Linear.{
  Soplex, Sense, sense_e, sense_g, sense_l, operands, range_of, too_large, is_equal_or_whatever,
  is_greater_or_whatever, is_less_or_whatever,
}
use dlinear.SatSolver.Linear.Rows.{sense_of}
use dlinear.SatSolver.Linear.Enable.{relaxed}
use dlinear.SatSolver.Linear.Problem.{dot, in_range}
use dlinear.SatSolver.Linear.Affine.{IsAffine, RowMeans}

module _ {Q : Type 0} (S : Structure Q) where
  -- `Expand` keeps the value of the difference.
  abbrev pub IsDifference : (Expression Q → Expression Q → Expression Q) → Type 0
  IsDifference difference =
      (d e : Expression Q) (env : Env Q)
      → value_of S env (difference d e) ≡ S.minus (value_of S env d) (value_of S env e)

module _ {Q P : Type 0} {S : Structure Q} (ordered : IsOrdered S) (affine : IsAffine S)
    (infinity : Q) (X : Soplex Q P) where
  -- What the sense says of a number and the right side.
  abbrev says : Sense → Q → Q → Bool
  says sense_e a r = not (S.less a r) && not (S.less r a)
  says sense_g a r = not (S.less a r)
  says sense_l a r = not (S.less r a)

  -- The right side is finite.
  in_range-says :
      (sn : Sense) (a r : Q)
      → too_large S infinity X r ≡ false
      → in_range S infinity (range_of S infinity X sn r).0 (range_of S infinity X sn r).1 a
        ≡ says sn a r
  in_range-says sense_e a r h = ground (arith)
  in_range-says sense_g a r h = ground (arith, ordered.less_asym infinity infinity)
  in_range-says sense_l a r h =
      let low = S.minus S.zero infinity in ground (arith, ordered.less_asym low low)

  says-relaxed :
      (f : Formula Q) (truth : Bool) (sn : Sense) (lhs rhs : Expression Q) (a r : Q) (env : Env Q)
      → sense_of S infinity X f truth ≡ some sn
      → operands f ≡ some (lhs, rhs)
      → S.less a r ≡ S.less (value_of S env lhs) (value_of S env rhs)
      → S.less r a ≡ S.less (value_of S env rhs) (value_of S env lhs)
      → says sn a r ≡ relaxed S env f truth
  unfolding sense_of relaxed is_equal_or_whatever is_greater_or_whatever is_less_or_whatever
  says-relaxed (eq d e) true sn lhs rhs a r env s o p q =
      ground (arith, S.trichotomy (value_of S env d) (value_of S env e))
  says-relaxed (eq d e) false sn lhs rhs a r env s o p q = ground (arith)
  says-relaxed (neq d e) true sn lhs rhs a r env s o p q = ground (arith)
  says-relaxed (neq d e) false sn lhs rhs a r env s o p q =
      ground (arith, S.trichotomy (value_of S env d) (value_of S env e))
  says-relaxed (gt d e) true sn lhs rhs a r env s o p q = ground (arith)
  says-relaxed (gt d e) false sn lhs rhs a r env s o p q = ground (arith)
  says-relaxed (geq d e) true sn lhs rhs a r env s o p q = ground (arith)
  says-relaxed (geq d e) false sn lhs rhs a r env s o p q = ground (arith)
  says-relaxed (lt d e) true sn lhs rhs a r env s o p q = ground (arith)
  says-relaxed (lt d e) false sn lhs rhs a r env s o p q = ground (arith)
  says-relaxed (leq d e) true sn lhs rhs a r env s o p q = ground (arith)
  says-relaxed (leq d e) false sn lhs rhs a r env s o p q = ground (arith)
  says-relaxed _ truth sn lhs rhs a r env s o p q = ground (arith)

  pub in_range-relaxed :
      (f : Formula Q) (truth : Bool) (sn : Sense) (lhs rhs d : Expression Q) (cs : List (ℕ × Q))
      (r : Q) (env : Env Q) (y : ℕ → Q)
      → sense_of S infinity X f truth ≡ some sn
      → operands f ≡ some (lhs, rhs)
      → value_of S env d ≡ S.minus (value_of S env lhs) (value_of S env rhs)
      → RowMeans S env y d cs r
      → too_large S infinity X r ≡ false
      → in_range S infinity
          (range_of S infinity X sn r).0
          (range_of S infinity X sn r).1
          (dot S y cs)
        ≡ relaxed S env f truth
  unfolding RowMeans
  in_range-relaxed f truth sn lhs rhs d cs r env y s o same (below, above) small =
      in_range-says sn (dot S y cs) r small
      ∙ says-relaxed f truth sn lhs rhs (dot S y cs) r env s o
          (below ∙ ap (λ a. S.less a S.zero) same ∙ affine.difference_less _ _)
          (above ∙ ap (S.less S.zero) same ∙ affine.less_difference _ _)
