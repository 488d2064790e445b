-- ===== src/Examples/Boxes.antt =====
-- A box of one variable.
use dlinear.Base.{◌≡◌, refl, ◌⊎◌, some, [], ◌∷◌}
use dlinear.Symbolic.Syntax.{Variable, continuous}
use dlinear.Box.Intervals.{is_bisectable, bisect_at, contains}
use dlinear.Box.{Box, bisect, max_diam, get_elem?, set}
use dlinear.Box.Bisect.{InBox, bisect-InBox}
use dlinear.Box.Laws.{NoneWider, max_diam-NoneWider}
use dlinear.Examples.Numbers.{
  Small, minus_two, minus_one, plus_one, plus_two, small, small-IsOrdered,
}

abbrev x : Variable
x = record { id = 0; type = continuous }

abbrev box : Box Small
box = record { variables = x ∷ []; values = record { lb = minus_two; ub = plus_two } ∷ [] }

abbrev left : Box Small
left = record { variables = x ∷ []; values = record { lb = minus_two; ub = minus_one } ∷ [] }

abbrev right : Box Small
right = record { variables = x ∷ []; values = record { lb = minus_one; ub = plus_two } ∷ [] }

bisected : bisect small box 0 ≡ some (left, right)
unfolding bisect small is_bisectable bisect_at get_elem? set
bisected = refl

inside : InBox small (λ i. plus_one) box
unfolding contains small
inside = (refl, tt)

bisect-InBox_example : InBox small (λ i. plus_one) left ⊎ InBox small (λ i. plus_one) right
bisect-InBox_example = bisect-InBox small-IsOrdered box left right 0 (λ i. plus_one) bisected inside

max_diam-NoneWider_example : NoneWider small (max_diam small box).0 box.variables box.values
max_diam-NoneWider_example = max_diam-NoneWider small-IsOrdered box
