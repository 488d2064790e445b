-- ===== src/Literal/Sets.antt =====
-- What a set of literals says.
use dlinear.Base.{Bool, true, false, ◌&&◌, ◌≡◌, refl, ◌∙◌, [], ◌∷◌, arith}
use dlinear.Symbolic.Syntax.{Variable}
use dlinear.Literal.{Literal, Literals, less_literal, insert_literal, insert_literals}

module _ {A : Type 0} (truth : A → Literal → Bool) where
  abbrev pub all_true : A → Literals → Bool
  all_true a [] = true
  all_true a (l ∷ ls) = truth a l && all_true a ls

  -- The truth of a literal hangs on the identifier of its variable alone.
  abbrev pub ById : Type 0
  ById = (a : A) (v w : Variable) (s : Bool) → v.id ≡ w.id → truth a (v, s) ≡ truth a (w, s)

module _ {A : Type 0} (truth : A → Literal → Bool) (by_id : ById truth) (a : A) where
  incomparable :
      (l m : Literal) → less_literal l m ≡ false → less_literal m l ≡ false → truth a l ≡ truth a m
  unfolding less_literal
  incomparable (v, true) (w, true) h k = by_id a v w true (ground (arith))
  incomparable (v, true) (w, false) h k = ground (arith)
  incomparable (v, false) (w, true) h k = ground (arith)
  incomparable (v, false) (w, false) h k = by_id a v w false (ground (arith))

  all_true-insert_literal :
      (l : Literal) (ms : Literals)
      → all_true truth a (insert_literal l ms) ≡ (truth a l && all_true truth a ms)
  unfolding insert_literal
  all_true-insert_literal l [] = refl
  all_true-insert_literal l (m ∷ ms) =
      ground (arith, all_true-insert_literal l ms, incomparable l m)

  pub all_true-insert_literals :
      (ls ms : Literals)
      → all_true truth a (insert_literals ls ms) ≡ (all_true truth a ls && all_true truth a ms)
  unfolding insert_literals
  all_true-insert_literals [] ms = refl
  all_true-insert_literals (l ∷ ls) ms =
      all_true-insert_literals ls (insert_literal l ms)
      ∙ ground (arith, all_true-insert_literal l ms)
