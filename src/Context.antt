-- ===== src/Context.antt =====
-- dreal/solver/soplex_context_impl.cc: asserting formulas and the loop between the SAT solver and
-- the theory solver. Both solvers are an interface here.
pub mod Unsolved
pub mod Session
pub mod Options
pub mod Outranked
pub mod Model
pub mod Declared
pub mod Shared
pub mod Reach
pub mod Refutes
pub mod Answered
pub mod Satisfies
pub mod Solvers
pub mod Run
pub mod Found
use dlinear.Base.{
  ℕ, zero, suc, Bool, true, false, Option, none, some, List, [], ◌∷◌, ◌++◌, if◌then◌else◌,
}
use dlinear.Symbolic.Syntax.{Variable, Formula}
use dlinear.Symbolic.Meaning.{Structure}
use dlinear.Symbolic.Kinds.{is_true, is_false}
use dlinear.Literal.{Literals}
use dlinear.Box.Intervals.{Interval}
use dlinear.Box.{Box, add, has_variable, at, assign_at, empty, set_empty}

-- `SAT_DELTA_SATISFIABLE`, with the model, and the two answers that come with an explanation.
pub data TheoryAnswer (Q : Type 0) : Type 0 where
  delta_satisfiable : Box Q → TheoryAnswer Q
  unsatisfiable unsolved : Literals → TheoryAnswer Q

-- The calls of the SAT solver, of state `Z`, and of the theory solver, of state `T`. The theory
-- solver also reads the linear problem that the SAT solver holds. No result is a throw.
pub record Engine (Q Z T : Type 0) : Type 0 where
  pub add_formula : Formula Q → Z → Option Z
  pub check_sat : Box Q → Z → Option (Option (Literals × Literals) × Z)
  pub check_theory : Box Q → Literals → Z → T → Option (TheoryAnswer Q × Z × T)
  pub add_learned_clause : Literals → Z → Option Z
  -- `IfThenElseEliminator`: the formula without conditionals, and the variables it adds.
  pub eliminate : Formula Q → Formula Q × List Variable

pub data Outcome (Q : Type 0) : Type 0 where
  model_found : Box Q → Outcome Q
  no_model failed out_of_fuel : Outcome Q

pub record Context (Q Z T : Type 0) : Type 0 where
  pub box : Box Q
  pub stack : List (Formula Q)
  pub sat : Z
  pub theory : T

module _ {Q : Type 0} (S : Structure Q) (entire : Interval Q) where
  -- `AddToBox`.
  unfoldable pub add_to_box : Variable → Box Q → Option (Box Q)
  add_to_box v b = if has_variable b v then some b else add S entire v b

  unfoldable pub add_all_to_box : List Variable → Box Q → Option (Box Q)
  unfolding add_to_box
  add_all_to_box [] b = some b
  add_all_to_box (v ∷ vs) b = elim (add_to_box v b) [ none ↦ none | some b' ↦ add_all_to_box vs b' ]

module _ {Q Z T : Type 0} (S : Structure Q) (entire : Interval Q) (E : Engine Q Z T) where
  unfoldable pub assert : Formula Q → Context Q Z T → Option (Context Q Z T)
  unfolding add_all_to_box
  assert f c =
      if is_true f
      then some c
      else if empty S c.box
      then some c
      else if is_false f
      then some (record c { box = set_empty S c.box })
      else let (no_ite, vs) = E.eliminate f in
        elim (add_all_to_box S entire vs c.box) [
          | none ↦ none
          | some box ↦ elim (E.add_formula no_ite c.sat) [
            | none ↦ none
            | some sat ↦ some (record c { box = box; stack = c.stack ++ no_ite ∷ []; sat = sat })
          ]
        ]

  -- The Boolean part of the model is written into the box.
  unfoldable pub assign_all : Literals → Box Q → Option (Box Q)
  assign_all [] b = some b
  assign_all ((v, sign) ∷ ls) b =
      let value = if sign then S.one else S.zero in
      elim (at b v) [
        | none ↦ none
        | some iv ↦ assign_all ls (assign_at b v (record { lb = value; ub = value }))
      ]

  -- The loop of `CheckSatCore`, on fuel.
  unfoldable pub loop : ℕ → Bool → Box Q → Z → T → Outcome Q
  unfolding assign_all
  loop zero have_unsolved box z t = out_of_fuel
  loop (suc n) have_unsolved box z t = elim (E.check_sat box z) [
    | none ↦ failed
    | some (none, z1) ↦ if have_unsolved then failed else no_model
    | some (some (bools, []), z1) ↦ elim (assign_all bools box) [
      | none ↦ failed
      | some box1 ↦ model_found box1
    ]
    | some (some (bools, l ∷ ls), z1) ↦ elim (assign_all bools box) [
      | none ↦ failed
      | some box1 ↦ elim (E.check_theory box1 (l ∷ ls) z1 t) [
        | none ↦ failed
        | some (delta_satisfiable model, z2, t2) ↦ model_found model
        | some (unsatisfiable explanation, z2, t2) ↦ elim (E.add_learned_clause explanation z2) [
          | none ↦ failed
          | some z3 ↦ loop n have_unsolved box1 z3 t2
        ]
        | some (unsolved explanation, z2, t2) ↦ elim (E.add_learned_clause explanation z2) [
          | none ↦ failed
          | some z3 ↦ loop n true box1 z3 t2
        ]
      ]
    ]
  ]

  unfoldable pub any_false : List (Formula Q) → Bool
  any_false [] = false
  any_false (f ∷ fs) = if is_false f then true else any_false fs

  abbrev pub is_trivial : List (Formula Q) → Bool
  is_trivial [] = true
  is_trivial (f ∷ []) = is_true f
  is_trivial (f ∷ g ∷ fs) = false

  unfoldable pub check_sat_core : ℕ → List (Formula Q) → Box Q → Z → T → Outcome Q
  unfolding loop any_false
  check_sat_core fuel stack box z t =
      if empty S box
      then no_model
      else if any_false stack
      then no_model
      else if is_trivial stack
      then model_found box
      else loop fuel false box z t
