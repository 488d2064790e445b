-- ===== src/Box/Laws.antt =====
-- The choice of the dimension to bisect, `Box::MaxDiam`.
use dlinear.Base.{
  ℕ, suc, Bool, false, ◌&&◌, ◌≡◌, Option, none, some, List, [], ◌∷◌, Bool-cases, arith, inl, inr,
}
use dlinear.Symbolic.Syntax.{Variable}
use dlinear.Symbolic.Meaning.{Structure, IsOrdered}
use dlinear.Box.Intervals.{Interval, is_bisectable, diam}
use dlinear.Box.{Box, max_diam_from, max_diam}

module _ {Q : Type 0} (S : Structure Q) where
  -- No bisectable interval has a diameter above `d`.
  abbrev pub NoneWider : Q → List Variable → List (Interval Q) → Type 0
  NoneWider d [] ivs = Unit
  NoneWider d (v ∷ vs) [] = Unit
  NoneWider d (v ∷ vs) (iv ∷ ivs) =
      ((S.less d (diam S iv) && is_bisectable S iv) ≡ false) × NoneWider d vs ivs

module _ {Q : Type 0} {S : Structure Q} (ordered : IsOrdered S) where
  less_irrefl : (a : Q) → S.less a a ≡ false
  less_irrefl a = ground (arith, ordered.less_asym a a, Bool-cases (S.less a a))

  below :
      (a w d : Q) (t : Bool)
      → (S.less a w && t) ≡ false
      → S.less d a ≡ false
      → (S.less d w && t) ≡ false
  below a w d t h k = ground (arith, ordered.le_trans w a d)

  max_diam_from-NoneWider :
      (i : ℕ) (vs : List Variable) (ivs : List (Interval Q)) (best : Q × Option ℕ)
      → (S.less best.0 best.0 ≡ false)
      → let d = (max_diam_from S i vs ivs best).0 in
        (S.less d best.0 ≡ false) × NoneWider S d vs ivs
  unfolding max_diam_from
  max_diam_from-NoneWider i [] ivs best same = (same, tt)
  max_diam_from-NoneWider i (v ∷ vs) [] best same = (same, tt)
  max_diam_from-NoneWider i (v ∷ vs) (iv ∷ ivs) best same =
      let w = diam S iv in
      elim (Bool-cases (S.less best.0 w && is_bisectable S iv)) [
        | inl h ↦
            let wider = ordered.less_asym best.0 w (ground (arith)) in
            let itself = less_irrefl w in
            let (grown, rest) = max_diam_from-NoneWider (suc i) vs ivs (w, some i) itself in
            let d = (max_diam_from S (suc i) vs ivs (w, some i)).0 in
            ground (arith, ordered.le_trans best.0 w d, grown, rest, wider)
        | inr h ↦
            let (grown, rest) = max_diam_from-NoneWider (suc i) vs ivs best same in
            let d = (max_diam_from S (suc i) vs ivs best).0 in
            let narrow = below best.0 w d (is_bisectable S iv) h grown in
            ground (arith, grown, rest, narrow)
      ]

  -- `MaxDiam` returns a diameter that no bisectable interval of the box exceeds, for ordered
  -- numbers.
  pub max_diam-NoneWider : (b : Box Q) → NoneWider S (max_diam S b).0 b.variables b.values
  unfolding max_diam
  max_diam-NoneWider b =
      (max_diam_from-NoneWider 0 b.variables b.values (S.zero, none) (less_irrefl S.zero)).1
