-- ===== src/TheorySolver/Missing.antt =====
-- The model has every variable that has a column.
use dlinear.Base.{ℕ, true, ◌≡◌, some, List, [], ◌∷◌, All, Bool-cases, Option-cases, inl, inr, arith}
use dlinear.Symbolic.Syntax.{Variable}
use dlinear.Symbolic.Meaning.{Structure, IsOrdered}
use dlinear.Box.Intervals.{Interval}
use dlinear.Box.{Box, has_variable, add}
use dlinear.Box.Access.{IsShaped, add-IsShaped, has_variable-add, has_variable-added}
use dlinear.TheorySolver.{add_missing}

abbrev pub Columns : Type 0
Columns = List (ℕ × Variable)

abbrev pub HasAll : {Q : Type 0} → Box Q → Columns → Type 0
HasAll b m = All (λ c. has_variable b c.1 ≡ true) m

module _ {Q : Type 0} {S : Structure Q} (ordered : IsOrdered S) (infinity : Q)
    (entire : Interval Q) where
  pub add_missing-IsShaped :
      (m : Columns) (b b' : Box Q)
      → IsShaped b
      → add_missing S infinity entire m b ≡ some b'
      → IsShaped b'
  unfolding add_missing
  add_missing-IsShaped [] b b' shaped h = ground (arith)
  add_missing-IsShaped ((col, v) ∷ m) b b' shaped h = elim (Bool-cases (has_variable b v)) [
    | inl there ↦ add_missing-IsShaped m b b' shaped (ground (arith))
    | inr absent ↦ elim (Option-cases (add S entire v b)) [
      | inl e ↦ ground (arith)
      | inr (b1, e) ↦ add_missing-IsShaped m b1 b' (add-IsShaped S entire v b b1 e) (ground (arith))
    ]
  ]

  pub add_missing-keeps :
      (m : Columns) (b b' : Box Q) (w : Variable)
      → add_missing S infinity entire m b ≡ some b'
      → has_variable b w ≡ true
      → has_variable b' w ≡ true
  unfolding add_missing
  add_missing-keeps [] b b' w h t = ground (arith)
  add_missing-keeps ((col, v) ∷ m) b b' w h t = elim (Bool-cases (has_variable b v)) [
    | inl there ↦ add_missing-keeps m b b' w (ground (arith)) t
    | inr absent ↦ elim (Option-cases (add S entire v b)) [
      | inl e ↦ ground (arith)
      | inr (b1, e) ↦
          add_missing-keeps m b1 b' w (ground (arith)) (has_variable-add S entire v w b b1 e t)
    ]
  ]

  pub add_missing-HasAll :
      (m : Columns) (b b' : Box Q)
      → IsShaped b
      → add_missing S infinity entire m b ≡ some b'
      → HasAll b' m
  unfolding add_missing
  add_missing-HasAll [] b b' shaped h = tt
  add_missing-HasAll ((col, v) ∷ m) b b' shaped h = elim (Bool-cases (has_variable b v)) [
    | inl there ↦
        let h' : add_missing S infinity entire m b ≡ some b' = ground (arith) in
        (add_missing-keeps m b b' v h' there, add_missing-HasAll m b b' shaped h')
    | inr absent ↦ elim (Option-cases (add S entire v b)) [
      | inl e ↦ ground (arith)
      | inr (b1, e) ↦
          let h' : add_missing S infinity entire m b1 ≡ some b' = ground (arith) in
          let shaped' = add-IsShaped S entire v b b1 e in
          (
            add_missing-keeps m b1 b' v h' (has_variable-added S entire v b b1 e),
            add_missing-HasAll m b1 b' shaped' h',
          )
    ]
  ]
