-- ===== src/TheorySolver/Refuted.antt =====
-- The answer of `CheckSat` that there is no solution.
use dlinear.Base.{
  ℕ, ◌<◌, Bool, true, false, ◌≡◌, ◌⊎◌, refl, sym, ap, ◌∙◌, subst, some, List, [], ◌∷◌,
  if◌then◌else◌, ◌==◌, length, All, Bool-cases, Option-cases, inl, inr, arith,
}
use dlinear.Symbolic.Meaning.{Structure, IsOrdered}
use dlinear.Literal.{Literal, Literals, insert_literals}
use dlinear.Literal.Sets.{all_true, ById, all_true-insert_literals}
use dlinear.Box.Intervals.{Interval, point}
use dlinear.Box.{Box, get_elem?, assign_at}
use dlinear.Box.Access.{get_elem?-some}
use dlinear.TheorySolver.{
  Status, optimal, unbounded, infeasible, other, Optimizer, TheorySolver, delta_sat, unsat,
  add_missing, free_value, check_bounds, copy_solution, judge, zeros, solve, check_sat,
}
use dlinear.TheorySolver.Missing.{Columns}
use dlinear.TheorySolver.Bounds.{Within}
use dlinear.TheorySolver.Laws.{IsOptimizer}

module _ {Q P : Type 0} {S : Structure Q} (ordered : IsOrdered S) (infinity : Q)
    (entire : Interval Q) {O : Optimizer Q P} {rows : P → List Q → Bool}
    (law : IsOptimizer S O rows) (phase : ℕ) where
  judge-unsat :
      (status : Status) (n : ℕ) (obj x : List Q)
      → phase ≡ 1
      → judge S infinity entire phase status n obj x ≡ some unsat
      → status ≡ infeasible
  unfolding judge
  judge-unsat optimal n obj x one h = ground (arith)
  judge-unsat unbounded n obj x one h = ground (arith)
  judge-unsat infeasible n obj x one h = refl
  judge-unsat other n obj x one h = ground (arith)

  -- Inverted bounds admit no point.
  check_bounds-inverted :
      (lower upper : List Q) (no_rows : Bool) (m : Columns) (b b' : Box Q) (x : List Q)
      → All (λ c. c.0 < length x) m
      → check_bounds S infinity entire lower upper no_rows m b ≡ some (false, b')
      → Within S lower upper x
      → ⊥
  unfolding check_bounds
  check_bounds-inverted lower upper no_rows [] b b' x small h within = ground (arith)
  check_bounds-inverted lower upper no_rows ((col, v) ∷ m) b b' x small h within =
      elim (Option-cases (get_elem? lower col)) [
        | inl e ↦ ground (arith)
        | inr (lb, e) ↦ elim (Option-cases (get_elem? upper col)) [
          | inl e' ↦ ground (arith)
          | inr (ub, e') ↦ elim (Bool-cases (S.less ub lb)) [
            | inl g ↦
                let (a, found) = get_elem?-some col x small.0 in
                let inside = within col a found in ground (arith, ordered.le_trans lb a ub)
            | inr g ↦
                let q = point (free_value S infinity entire lb ub) in
                let b1 = if no_rows then assign_at b v q else b in
                check_bounds-inverted lower upper no_rows m b1 b' x small.1 (ground (arith)) within
          ]
        ]
      ]

  -- What an answer that there is no solution comes from, and its explanation.
  Refuted : Literals → P → List Q → List Q → Columns → TheorySolver Q → Type 0
  Refuted assertions prob lower upper m st' =
      let p = O.change_upper upper (O.change_lower lower prob) in
      let (status, p1) = O.optimize p in
      let x = (O.get_primal (zeros S infinity entire (O.num_cols p)) p1).1 in
      (st'.explanation ≡ insert_literals assertions [])
      × (((t : Bool) × (b : Box Q) × (b' : Box Q) × (check_bounds S infinity entire lower upper t m
                b
              ≡ some (false, b')))
          ⊎ (judge S infinity entire phase status (O.num_cols p) (O.get_obj p1) x ≡ some unsat))

  solve-Refuted :
      (assertions : Literals) (prob p' : P) (lower upper : List Q) (m : Columns)
      (st st' : TheorySolver Q)
      → solve S infinity entire O phase assertions
          (O.change_upper upper (O.change_lower lower prob))
          m
          st
        ≡ some (unsat, p', st')
      → Refuted assertions prob lower upper m st'
  unfolding Refuted solve
  solve-Refuted assertions prob p' lower upper m st st' h =
      let p = O.change_upper upper (O.change_lower lower prob) in
      let (status, p1) = O.optimize p in
      let (have, x) = O.get_primal (zeros S infinity entire (O.num_cols p)) p1 in
      elim (Option-cases (judge S infinity entire phase status (O.num_cols p) (O.get_obj p1) x)) [
        | inl e ↦ ground (arith)
        | inr (unsat, e) ↦ (ground (arith), inr e)
        | inr (delta_sat, e) ↦ elim (Bool-cases have) [
          | inr lost ↦ ground (arith)
          | inl found ↦ elim (Option-cases (copy_solution S infinity entire x m st.model)) [
            | inl e' ↦ ground (arith)
            | inr (model, e') ↦ ground (arith)
          ]
        ]
      ]

  check_sat-Refuted :
      (box : Box Q) (assertions : Literals) (prob p' : P) (lower upper : List Q) (m : Columns)
      (st st' : TheorySolver Q)
      → check_sat S infinity entire O phase box assertions prob lower upper m st
        ≡ some (unsat, p', st')
      → Refuted assertions prob lower upper m st'
  unfolding check_sat Refuted
  check_sat-Refuted box assertions prob p' lower upper m st st' h =
      elim (Option-cases (add_missing S infinity entire m box)) [
        | inl e ↦ ground (arith)
        | inr (model0, e) ↦
            let none_left = O.num_rows prob == 0 in
            elim (Option-cases (check_bounds S infinity entire lower upper none_left m model0)) [
              | inl e' ↦ ground (arith)
              | inr ((false, model), e') ↦ (ground (arith), inl (none_left, model0, model, e'))
              | inr ((true, model), e') ↦ elim (Bool-cases none_left) [
                | inl empty ↦ ground (arith)
                | inr full ↦
                    solve-Refuted assertions prob p' lower upper m (record st { model = model }) st'
                      (ground (arith))
              ]
            ]
      ]

  -- When `CheckSat` of the theory solver answers in phase one that there is no solution, no point
  -- with a number for every column lies within the bounds and satisfies the rows; every column of
  -- the map exists, the numbers are ordered, and SoPlex keeps its promise.
  pub check_sat-unsat :
      (box : Box Q) (assertions : Literals) (prob p' : P) (lower upper x : List Q) (m : Columns)
      (st st' : TheorySolver Q)
      → phase ≡ 1
      → All (λ c. c.0 < O.num_cols prob) m
      → check_sat S infinity entire O phase box assertions prob lower upper m st
        ≡ some (unsat, p', st')
      → length x ≡ O.num_cols prob
      → Within S lower upper x
      → rows prob x ≡ false
  unfolding Refuted
  check_sat-unsat box assertions prob p' lower upper x m st st' one small h size within =
      elim (check_sat-Refuted box assertions prob p' lower upper m st st' h).1 [
        | inl (t, b, b', e) ↦
            let small' = subst (λ n. All (λ c. c.0 < n) m) (sym size) small in
            absurd (check_bounds-inverted lower upper t m b b' x small' e within)
        | inr e ↦ law.no_solution lower upper x prob (judge-unsat _ _ _ _ one e) size within
      ]

  -- When `CheckSat` of the theory solver answers that there is no solution, its explanation is true
  -- just where the assertions all are, for a truth of literals that hangs on the identifier of the
  -- variable.
  pub check_sat-explained :
      {A : Type 0} (truth : A → Literal → Bool) (box : Box Q) (assertions : Literals) (prob p' : P)
      (lower upper : List Q) (m : Columns) (st st' : TheorySolver Q) (a : A)
      → ById truth
      → check_sat S infinity entire O phase box assertions prob lower upper m st
        ≡ some (unsat, p', st')
      → all_true truth a st'.explanation ≡ all_true truth a assertions
  unfolding Refuted
  check_sat-explained truth box assertions prob p' lower upper m st st' a by_id h =
      let (same, _) = check_sat-Refuted box assertions prob p' lower upper m st st' h in
      ap (all_true truth a) same
      ∙ ground (arith, all_true-insert_literals truth by_id a assertions [])
