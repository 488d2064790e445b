-- ===== src/Box/Bisect.antt =====
-- Bisecting a box loses no point.
use dlinear.Base.{
  ℕ, zero, suc, true, ◌||◌, ◌≡◌, some, List, [], ◌∷◌, Option-cases, ◌⊎◌, inl, inr, arith,
}
use dlinear.Symbolic.Syntax.{Variable}
use dlinear.Symbolic.Meaning.{Structure, IsOrdered}
use dlinear.Box.Intervals.{Interval, bisect_at, contains}
use dlinear.Box.{Box, set, get_elem?, bisect}

module _ {Q : Type 0} (S : Structure Q) where
  -- The point lies in the box: each variable's value lies in its interval.
  abbrev pub Inside : (ℕ → Q) → List Variable → List (Interval Q) → Type 0
  Inside x [] ivs = Unit
  Inside x (v ∷ vs) [] = ⊥
  Inside x (v ∷ vs) (iv ∷ ivs) = (contains S iv (x v.id) ≡ true) × Inside x vs ivs

  abbrev pub InBox : (ℕ → Q) → Box Q → Type 0
  InBox x b = Inside x b.variables b.values

module _ {Q : Type 0} {S : Structure Q} (ordered : IsOrdered S) where
  -- A point of an interval lies on one side of any midpoint.
  contains-bisect_at :
      (p : Q) (iv : Interval Q) (x : Q)
      → contains S iv x ≡ true
      → (contains S (bisect_at S p iv).0 x || contains S (bisect_at S p iv).1 x) ≡ true
  unfolding contains bisect_at
  contains-bisect_at p iv x h =
      let m = S.plus iv.lb (S.times p (S.minus iv.ub iv.lb)) in
      ground (arith, ordered.less_asym x m, ordered.less_asym m x)

  Inside-set :
      (x : ℕ → Q) (i : ℕ) (vs : List Variable) (ivs : List (Interval Q))
      (iv left right : Interval Q)
      → get_elem? ivs i ≡ some iv
      → ((a : Q) → contains S iv a ≡ true → (contains S left a || contains S right a) ≡ true)
      → Inside S x vs ivs
      → Inside S x vs (set ivs i left) ⊎ Inside S x vs (set ivs i right)
  unfolding set get_elem?
  Inside-set x i [] ivs iv left right e split h = inl tt
  Inside-set x i (v ∷ vs) [] iv left right e split h = absurd h
  Inside-set x zero (v ∷ vs) (jv ∷ ivs) iv left right e split h = ground (arith, split (x v.id))
  Inside-set x (suc i) (v ∷ vs) (jv ∷ ivs) iv left right e split h =
      ground (arith, Inside-set x i vs ivs iv left right e split h.1)

  bisect_at-left-or-right :
      (b l r : Box Q) (i : ℕ) (v : Variable) (iv : Interval Q) (x : ℕ → Q)
      → get_elem? b.variables i ≡ some v
      → get_elem? b.values i ≡ some iv
      → bisect S b i ≡ some (l, r)
      → InBox S x b
      → InBox S x l ⊎ InBox S x r
  unfolding bisect
  bisect_at-left-or-right b l r i v iv x e1 e2 e h =
      let (left, right) = bisect_at S S.half iv in
      let split =
        Inside-set x i b.variables b.values iv left right e2 (contains-bisect_at S.half iv) h in
      ground (arith, split)

  -- When `Box::bisect` returns two boxes, every point of the box lies in one of them, for ordered
  -- numbers.
  pub bisect-InBox :
      (b l r : Box Q) (i : ℕ) (x : ℕ → Q)
      → bisect S b i ≡ some (l, r)
      → InBox S x b
      → InBox S x l ⊎ InBox S x r
  unfolding bisect
  bisect-InBox b l r i x e h = elim (Option-cases (get_elem? b.variables i)) [
    | inl e1 ↦ ground (arith)
    | inr (v, e1) ↦ elim (Option-cases (get_elem? b.values i)) [
      | inl e2 ↦ ground (arith)
      | inr (iv, e2) ↦ bisect_at-left-or-right b l r i v iv x e1 e2 e h
    ]
  ]
