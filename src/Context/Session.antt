-- ===== src/Context/Session.antt =====
-- dreal/solver/context_impl.cc: the variables that the context has declared, their intervals, and the
-- model of the latest check. The box is the last one of `boxes_`.
use dlinear.Base.{ℕ, Bool, Option, none, some, List, [], ◌∷◌, length, if◌then◌else◌, ◌==◌}
use dlinear.Symbolic.Syntax.{Variable, Expression}
use dlinear.Symbolic.Meaning.{Structure}
use dlinear.Symbolic.Ids.{contains}
use dlinear.Box.Intervals.{Interval}
use dlinear.Box.{Box, new, at, assign_at, add_with, set_empty}
use dlinear.Context.{add_to_box}

pub record Session (Q : Type 0) : Type 0 where
  pub box : Box Q
  pub model_variables : List ℕ
  pub model : Box Q

abbrev pub is_model_variable : List ℕ → Variable → Bool
is_model_variable ids v = contains v.id ids

unfoldable pub mark_model_variable : Variable → List ℕ → List ℕ
mark_model_variable v ids = if contains v.id ids then ids else v.id ∷ ids

module _ {Q : Type 0} (S : Structure Q) (entire : Interval Q) where
  unfoldable pub declare_variable : Variable → Bool → Session Q → Option (Session Q)
  unfolding add_to_box mark_model_variable
  declare_variable v is_model s = elim (add_to_box S entire v s.box) [
    | none ↦ none
    | some box ↦ some (record s {
      box = box;
      model_variables =
          if is_model then mark_model_variable v s.model_variables else s.model_variables;
    })
  ]

  unfoldable pub set_interval : Variable → Q → Q → Session Q → Session Q
  unfolding assign_at
  set_interval v lb ub s = record s { box = assign_at s.box v (record { lb = lb; ub = ub }) }

  -- `evaluate` is `Expression::Evaluate`, which throws at a variable.
  unfoldable pub set_domain :
      (Expression Q → Option Q)
      → Variable
      → Expression Q
      → Expression Q
      → Session Q
      → Option (Session Q)
  unfolding set_interval
  set_domain evaluate v lb ub s = elim (evaluate lb) [
    | none ↦ none
    | some lb_fp ↦ elim (evaluate ub) [
      | none ↦ none
      | some ub_fp ↦ some (set_interval v lb_fp ub_fp s)
    ]
  ]

  -- `new_box.Add(v, box[v].lb(), box[v].ub())`.
  unfoldable pub copy_variable : Box Q → Variable → Box Q → Option (Box Q)
  unfolding at add_with
  copy_variable box v new_box = elim (at box v) [
    | none ↦ none
    | some iv ↦ add_with S entire v iv.lb iv.ub new_box
  ]

  -- The loop of `ExtractModel`.
  unfoldable pub extract_from : List ℕ → Box Q → List Variable → Box Q → Option (Box Q)
  unfolding copy_variable
  extract_from ids box [] new_box = some new_box
  extract_from ids box (v ∷ vs) new_box =
      elim (if is_model_variable ids v then copy_variable box v new_box else some new_box) [
        | none ↦ none
        | some new_box' ↦ extract_from ids box vs new_box'
      ]

  unfoldable pub extract_model : List ℕ → Box Q → Option (Box Q)
  unfolding extract_from new
  extract_model ids box =
      if length ids == length box.variables
      then some box
      else extract_from ids box box.variables (new S entire)

  -- `CheckSat`, on the result of `CheckSatCore`.
  unfoldable pub check_sat : Option (Box Q) → Session Q → Option (Option (Box Q) × Session Q)
  unfolding extract_model set_empty
  check_sat none s = some (none, record s { model = set_empty S s.model })
  check_sat (some result) s = elim (extract_model s.model_variables result) [
    | none ↦ none
    | some model ↦ some (some model, record s { model = model })
  ]

  -- `CheckOpt`, on the result of `CheckOptCore`: whether it is `LP_DELTA_OPTIMAL`, and `*model`.
  unfoldable pub check_opt : Bool → Box Q → Session Q → Option (Box Q × Session Q)
  unfolding extract_model set_empty
  check_opt optimal model s =
      elim (if optimal then extract_model s.model_variables model else some (set_empty S model)) [
        | none ↦ none
        | some model' ↦ some (model', record s { model = model' })
      ]
