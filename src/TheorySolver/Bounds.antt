-- ===== src/TheorySolver/Bounds.antt =====
-- The model that `CheckSat` leaves is a point within the bounds.
use dlinear.Base.{
  ℕ, Bool, true, false, not, ◌&&◌, ◌≡◌, sym, ap, ◌∙◌, none, some, List, [], ◌∷◌, if◌then◌else◌,
  ◌==◌, All, Bool-cases, Option-cases, inl, inr, arith,
}
use dlinear.Symbolic.Syntax.{Variable}
use dlinear.Symbolic.Meaning.{Structure, IsOrdered}
use dlinear.Box.Intervals.{Interval, point}
use dlinear.Box.{Box, get_elem?, at, assign_at}
use dlinear.Box.Access.{
  IsShaped, at-assign_at, at-assign_at_other, assign_at-IsShaped, has_variable-assign_at,
}
use dlinear.TheorySolver.Missing.{Columns, HasAll}
use dlinear.TheorySolver.{free_value, check_bounds, copy_solution}

-- No two columns are of one variable.
abbrev pub Distinct : Columns → Type 0
Distinct [] = Unit
Distinct ((col, v) ∷ m) = All (λ c. (c.1.id == v.id) ≡ false) m × Distinct m

module _ {Q : Type 0} (S : Structure Q) where
  -- The bounds at the column admit the number.
  abbrev pub admits : List Q → List Q → ℕ → Q → Bool
  admits lower upper col x = elim (get_elem? lower col) [
    | none ↦ false
    | some lb ↦ elim (get_elem? upper col) [
      | none ↦ false
      | some ub ↦ not (S.less x lb) && not (S.less ub x)
    ]
  ]

  -- The number at every column lies within the bounds.
  abbrev pub Within : List Q → List Q → List Q → Type 0
  Within lower upper x =
      (col : ℕ) (a : Q) → get_elem? x col ≡ some a → admits lower upper col a ≡ true

  -- The model has a single number for the variable, within the bounds of its column.
  abbrev pub IsPoint : List Q → List Q → Box Q → ℕ × Variable → Type 0
  IsPoint lower upper model (col, v) =
      (q : Q) × (at model v ≡ some (point q)) × (admits lower upper col q ≡ true)

-- The model has the number of the column.
abbrev pub Copied : {Q : Type 0} → List Q → Box Q → ℕ × Variable → Type 0
Copied x model (col, v) = (a : _) × (get_elem? x col ≡ some a) × (at model v ≡ some (point a))

module _ {Q : Type 0} {S : Structure Q} (ordered : IsOrdered S) (infinity : Q)
    (entire : Interval Q) where
  HasAll-assign_at :
      (m : Columns) (b : Box Q) (v : Variable) (iv : Interval Q)
      → HasAll b m
      → HasAll (assign_at b v iv) m
  HasAll-assign_at [] b v iv h = tt
  HasAll-assign_at ((col, w) ∷ m) b v iv h =
      (has_variable-assign_at b v w iv ∙ h.0, HasAll-assign_at m b v iv h.1)

  -- A variable of no later column keeps its interval.
  copy_solution-other :
      (x : List Q) (m : Columns) (b b' : Box Q) (w : Variable)
      → All (λ c. (c.1.id == w.id) ≡ false) m
      → copy_solution S infinity entire x m b ≡ some b'
      → at b' w ≡ at b w
  unfolding copy_solution
  copy_solution-other x [] b b' w far h =
      let same : b ≡ b' = ground (arith) in ap (λ c. at c w) (sym same)
  copy_solution-other x ((col, v) ∷ m) b b' w far h = elim (Option-cases (get_elem? x col)) [
    | inl e ↦ ground (arith)
    | inr (a, e) ↦
        copy_solution-other x m (assign_at b v (point a)) b' w far.1 (ground (arith))
        ∙ at-assign_at_other b v w (point a) far.0
  ]

  pub copy_solution-Copied :
      (x : List Q) (m : Columns) (b b' : Box Q)
      → IsShaped b
      → HasAll b m
      → Distinct m
      → copy_solution S infinity entire x m b ≡ some b'
      → All (Copied x b') m
  unfolding copy_solution
  copy_solution-Copied x [] b b' shaped has far h = tt
  copy_solution-Copied x ((col, v) ∷ m) b b' shaped has far h =
      elim (Option-cases (get_elem? x col)) [
        | inl e ↦ ground (arith)
        | inr (a, e) ↦
            let b1 = assign_at b v (point a) in
            let h' : copy_solution S infinity entire x m b1 ≡ some b' = ground (arith) in
            (
              (
                a,
                e,
                copy_solution-other x m b1 b' v far.0 h' ∙ at-assign_at b v (point a) shaped has.0,
              ),
              copy_solution-Copied x m b1 b' (assign_at-IsShaped b v (point a) shaped)
                  (HasAll-assign_at m b v (point a) has.1) far.1 h',
            )
      ]

  less_irrefl : (a : Q) → S.less a a ≡ false
  less_irrefl a = ground (arith, ordered.less_asym a a, Bool-cases (S.less a a))

  free_value-within :
      (lb ub : Q)
      → S.less S.zero (S.minus S.zero infinity) ≡ false
      → S.less infinity S.zero ≡ false
      → S.less ub lb ≡ false
      → (S.less (free_value S infinity entire lb ub) lb ≡ false)
        × (S.less ub (free_value S infinity entire lb ub) ≡ false)
  unfolding free_value
  free_value-within lb ub low high h = elim (Bool-cases (S.less (S.minus S.zero infinity) lb)) [
    | inl e ↦ ground (arith, less_irrefl lb)
    | inr e ↦ elim (Bool-cases (S.less ub infinity)) [
      | inl e' ↦ ground (arith, less_irrefl ub)
      | inr e' ↦ (
        ground (arith, ordered.le_trans lb (S.minus S.zero infinity) S.zero),
        ground (arith, ordered.le_trans S.zero infinity ub),
      )
    ]
  ]

  check_bounds-other :
      (lower upper : List Q) (no_rows : Bool) (m : Columns) (b b' : Box Q) (w : Variable)
      → All (λ c. (c.1.id == w.id) ≡ false) m
      → check_bounds S infinity entire lower upper no_rows m b ≡ some (true, b')
      → at b' w ≡ at b w
  unfolding check_bounds
  check_bounds-other lower upper no_rows [] b b' w far h =
      let same : b ≡ b' = ground (arith) in ap (λ c. at c w) (sym same)
  check_bounds-other lower upper no_rows ((col, v) ∷ m) b b' w far h =
      elim (Option-cases (get_elem? lower col)) [
        | inl e ↦ ground (arith)
        | inr (lb, e) ↦ elim (Option-cases (get_elem? upper col)) [
          | inl e' ↦ ground (arith)
          | inr (ub, e') ↦
              let iv = point (free_value S infinity entire lb ub) in
              let b1 = if no_rows then assign_at b v iv else b in
              let h' : check_bounds S infinity entire lower upper no_rows m b1 ≡ some (true, b') =
                elim (Bool-cases (S.less ub lb)) [
                  | inl g ↦ ground (arith)
                  | inr g ↦ ground (arith)
                ] in
              check_bounds-other lower upper no_rows m b1 b' w far.1 h'
              ∙ elim (Bool-cases no_rows) [
                | inl g ↦ ground (arith, at-assign_at_other b v w iv far.0)
                | inr g ↦ ground (arith)
              ]
        ]
      ]

  -- Where there is no row, every variable gets a number within its bounds.
  pub check_bounds-IsPoint :
      (lower upper : List Q) (m : Columns) (b b' : Box Q)
      → S.less S.zero (S.minus S.zero infinity) ≡ false
      → S.less infinity S.zero ≡ false
      → IsShaped b
      → HasAll b m
      → Distinct m
      → check_bounds S infinity entire lower upper true m b ≡ some (true, b')
      → All (IsPoint S lower upper b') m
  unfolding check_bounds
  check_bounds-IsPoint lower upper [] b b' low high shaped has far h = tt
  check_bounds-IsPoint lower upper ((col, v) ∷ m) b b' low high shaped has far h =
      elim (Option-cases (get_elem? lower col)) [
        | inl e ↦ ground (arith)
        | inr (lb, e) ↦ elim (Option-cases (get_elem? upper col)) [
          | inl e' ↦ ground (arith)
          | inr (ub, e') ↦
              let q = free_value S infinity entire lb ub in
              let b1 = assign_at b v (point q) in
              elim (Bool-cases (S.less ub lb)) [
                | inl g ↦ ground (arith)
                | inr g ↦
                    let h' : check_bounds S infinity entire lower upper true m b1
                        ≡ some (true, b') =
                      ground (arith) in
                    let (above, below) = free_value-within lb ub low high g in
                    (
                      (
                        q,
                        check_bounds-other lower upper true m b1 b' v far.0 h'
                            ∙ at-assign_at b v (point q) shaped has.0,
                        ground (arith),
                      ),
                      check_bounds-IsPoint lower upper m b1 b' low high
                          (assign_at-IsShaped b v (point q) shaped)
                          (HasAll-assign_at m b v (point q) has.1) far.1 h',
                    )
              ]
        ]
      ]

  -- Where there are rows, the loop leaves the model.
  pub check_bounds-rows :
      (lower upper : List Q) (t : Bool) (m : Columns) (b b' : Box Q)
      → check_bounds S infinity entire lower upper false m b ≡ some (t, b')
      → b' ≡ b
  unfolding check_bounds
  check_bounds-rows lower upper t [] b b' h = ground (arith)
  check_bounds-rows lower upper t ((col, v) ∷ m) b b' h =
      elim (Option-cases (get_elem? lower col)) [
        | inl e ↦ ground (arith)
        | inr (lb, e) ↦ elim (Option-cases (get_elem? upper col)) [
          | inl e' ↦ ground (arith)
          | inr (ub, e') ↦ elim (Bool-cases (S.less ub lb)) [
            | inl g ↦ ground (arith)
            | inr g ↦ check_bounds-rows lower upper t m b b' (ground (arith))
          ]
        ]
      ]
