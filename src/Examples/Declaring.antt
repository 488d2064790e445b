-- ===== src/Examples/Declaring.antt =====
-- A box with a model variable and a variable that stands for a conditional.
use dlinear.Base.{true, ◌≡◌, refl, some, [], ◌∷◌, All, arith}
use dlinear.Symbolic.Syntax.{Variable, continuous, boolean}
use dlinear.Box.Intervals.{Interval}
use dlinear.Box.{Box, resize, set, index, index_from, has_variable, add}
use dlinear.Context.{add_to_box}
use dlinear.Context.Session.{Session, mark_model_variable, declare_variable, extract_model}
use dlinear.Context.Model.{IsDeclared, Extracted, extract_model-Extracted}
use dlinear.Context.Declared.{declare_variable-IsDeclared}
use dlinear.Examples.Numbers.{Small, minus_two, nought, plus_one, plus_two, small}

abbrev x : Variable
x = record { id = 0; type = continuous }

abbrev conditional : Variable
conditional = record { id = 5; type = continuous }

abbrev b : Variable
b = record { id = 7; type = boolean }

abbrev entire : Interval Small
entire = record { lb = minus_two; ub = plus_two }

abbrev box : Box Small
box = record {
  variables = conditional ∷ x ∷ [];
  values = entire ∷ record { lb = nought; ub = plus_one } ∷ [];
}

declared : IsDeclared (0 ∷ []) box
declared = record {
  shaped = omega arith;
  distinct = (refl, (refl, tt));
  addable = (refl, (refl, tt));
  different = (refl, tt);
  among = (refl, tt);
}

extract_model-Extracted_example :
    (c : Box Small) × (extract_model small entire (0 ∷ []) box ≡ some c)
    × All (Extracted small entire (0 ∷ []) box c) (conditional ∷ x ∷ [])
extract_model-Extracted_example = extract_model-Extracted small entire (0 ∷ []) box declared

abbrev before : Session Small
before = record { box = box; model_variables = 0 ∷ []; model = box }

abbrev after : Session Small
after = record {
  box = record {
    variables = conditional ∷ x ∷ b ∷ [];
    values =
        entire ∷ record { lb = nought; ub = plus_one } ∷ record { lb = nought; ub = plus_one } ∷ [];
  };
  model_variables = 7 ∷ 0 ∷ [];
  model = box;
}

run : declare_variable small entire b true before ≡ some after
unfolding declare_variable add_to_box mark_model_variable has_variable index index_from add resize
    set small
run = refl

declare_variable-IsDeclared_example : IsDeclared (7 ∷ 0 ∷ []) after.box
declare_variable-IsDeclared_example =
    declare_variable-IsDeclared small entire b true before after declared run
