-- ===== src/Box.antt =====
-- dreal/util/box.h and box.cc: intervals of rationals, and boxes. A box of no dimension still holds
-- one interval, as in the source; a call that throws returns `none`. A box is read and written at a
-- variable that it has: the source's hash map would enter another one
-- at index 0.
pub mod Intervals
pub mod Laws
pub mod Access
pub mod Grow
pub mod Bisect
use dlinear.Base.{
  ℕ, zero, suc, ◌+◌, Bool, true, false, ◌||◌, ◌&&◌, Option, none, some, List, [], ◌∷◌, ◌++◌, length,
  if◌then◌else◌, ◌==◌,
}
use dlinear.Symbolic.Syntax.{Variable, VarType, continuous, integer, binary, boolean}
use dlinear.Symbolic.Meaning.{Structure}
use dlinear.Box.Intervals.{Interval, is_empty, is_bisectable, diam, bisect_at, empty_interval}

pub record Box (Q : Type 0) : Type 0 where
  pub variables : List Variable
  pub values : List (Interval Q)

module _ {ℓ} {A : Type ℓ} where
  -- `vector::resize`, with the value that fills up.
  unfoldable pub resize : A → ℕ → List A → List A
  resize d zero xs = []
  resize d (suc n) [] = d ∷ resize d n []
  resize d (suc n) (x ∷ xs) = x ∷ resize d n xs

  unfoldable pub set : List A → ℕ → A → List A
  set [] i v = []
  set (x ∷ xs) zero v = v ∷ xs
  set (x ∷ xs) (suc i) v = x ∷ set xs i v

  unfoldable pub get_elem? : List A → ℕ → Option A
  get_elem? [] i = none
  get_elem? (x ∷ xs) zero = some x
  get_elem? (x ∷ xs) (suc i) = get_elem? xs i

-- The entry of `var_to_idx_`.
unfoldable pub index_from : ℕ → Variable → List Variable → Option ℕ
index_from n v [] = none
index_from n v (w ∷ ws) = if v.id == w.id then some n else index_from (suc n) v ws

module _ {Q : Type 0} where
  unfoldable pub index : Box Q → Variable → Option ℕ
  unfolding index_from
  index b v = index_from 0 v b.variables

  unfoldable pub has_variable : Box Q → Variable → Bool
  unfolding index
  has_variable b v = elim (index b v) [ none ↦ false | some _ ↦ true ]

  -- `operator[]` on a variable.
  unfoldable pub at : Box Q → Variable → Option (Interval Q)
  unfolding index get_elem?
  at b v = elim (index b v) [ none ↦ none | some i ↦ get_elem? b.values i ]

  -- An assignment to `(*box)[v]`.
  unfoldable pub assign_at : Box Q → Variable → Interval Q → Box Q
  unfolding index set
  assign_at b v iv = elim (index b v) [
    | none ↦ b
    | some i ↦ record b { values = set b.values i iv }
  ]

module _ {Q : Type 0} (S : Structure Q) (entire : Interval Q) where
  -- `Box()`; `entire` is the interval of the default constructor.
  unfoldable pub new : Box Q
  new = record { variables = []; values = entire ∷ [] }

  -- `Add(v)`, for a variable that the box does not have.
  unfoldable pub add : Variable → Box Q → Option (Box Q)
  unfolding resize set
  add v b =
      let n = length b.variables in
      let values = resize entire (n + 1) b.values in
      elim v.type [
        | binary ↦ none
        | integer ↦ none
        | continuous ↦ some (record { variables = b.variables ++ v ∷ []; values = values })
        | boolean ↦ some (record {
          variables = b.variables ++ v ∷ [];
          values = set values n (record { lb = S.zero; ub = S.one });
        })
      ]

  -- `Add(v, lb, ub)`.
  unfoldable pub add_with : Variable → Q → Q → Box Q → Option (Box Q)
  unfolding add assign_at
  add_with v lb ub b = elim (add v b) [
    | none ↦ none
    | some b' ↦ some (assign_at b' v (record { lb = lb; ub = ub }))
  ]

module _ {Q : Type 0} (S : Structure Q) where
  unfoldable pub any_empty : List (Interval Q) → Bool
  unfolding is_empty
  any_empty [] = false
  any_empty (iv ∷ ivs) = is_empty S iv || any_empty ivs

  unfoldable pub empty : Box Q → Bool
  unfolding any_empty
  empty b = any_empty b.values

  unfoldable pub all_empty : List (Interval Q) → List (Interval Q)
  unfolding empty_interval
  all_empty [] = []
  all_empty (iv ∷ ivs) = empty_interval S ∷ all_empty ivs

  unfoldable pub set_empty : Box Q → Box Q
  unfolding all_empty
  set_empty b = record b { values = all_empty b.values }

  -- The loop of `MaxDiam`: `none` stands for the index -1.
  unfoldable pub max_diam_from : ℕ → List Variable → List (Interval Q) → Q × Option ℕ → Q × Option ℕ
  unfolding diam is_bisectable
  max_diam_from i [] ivs best = best
  max_diam_from i (v ∷ vs) [] best = best
  max_diam_from i (v ∷ vs) (iv ∷ ivs) best =
      max_diam_from (suc i) vs ivs
        (if S.less best.0 (diam S iv) && is_bisectable S iv then (diam S iv, some i) else best)

  unfoldable pub max_diam : Box Q → Q × Option ℕ
  unfolding max_diam_from
  max_diam b = max_diam_from 0 b.variables b.values (S.zero, none)

  -- `bisect(i)`, with `bisect_continuous`: a box holds no integer and no binary variable. It throws
  -- where the interval is not bisectable; a Boolean variable is not reached.
  unfoldable pub bisect : Box Q → ℕ → Option (Box Q × Box Q)
  unfolding get_elem? set is_bisectable bisect_at
  bisect b i = elim (get_elem? b.variables i) [
    | none ↦ none
    | some v ↦ elim (get_elem? b.values i) [
      | none ↦ none
      | some iv ↦
          if is_bisectable S iv
          then elim v.type [
            | continuous ↦
                let (left, right) = bisect_at S S.half iv in
                some (
                  record b { values = set b.values i left },
                  record b { values = set b.values i right },
                )
            | _ ↦ none
          ]
          else none
    ]
  ]

  -- `bisect(var)`.
  unfoldable pub bisect_variable : Box Q → Variable → Option (Box Q × Box Q)
  unfolding bisect index
  bisect_variable b v = elim (index b v) [ none ↦ none | some i ↦ bisect b i ]
