-- ===== src/TheorySolver/Solution.antt =====
-- The answer of `CheckSat` that there is a solution.
use dlinear.Base.{
  ℕ, zero, suc, ◌<◌, Bool, true, false, ◌||◌, ◌≡◌, ◌≢◌, sym, ap, ◌∙◌, subst, some, All-imp, List,
  [], ◌∷◌, ◌==◌, All, Bool-cases, Option-cases, inl, inr, arith,
}
use dlinear.Symbolic.Meaning.{Structure, IsOrdered}
use dlinear.Literal.{Literals}
use dlinear.Box.Intervals.{Interval}
use dlinear.Box.{Box, get_elem?}
use dlinear.Box.Access.{IsShaped}
use dlinear.TheorySolver.{
  Status, optimal, unbounded, infeasible, other, Optimizer, TheorySolver, delta_sat, unsat,
  add_missing, check_bounds, copy_solution, no_objective, judge, zeros, solve, check_sat,
}
use dlinear.TheorySolver.Missing.{Columns, HasAll, add_missing-IsShaped, add_missing-HasAll}
use dlinear.TheorySolver.Bounds.{
  Distinct, Within, IsPoint, Copied, copy_solution-Copied, check_bounds-IsPoint, check_bounds-rows,
}
use dlinear.TheorySolver.Laws.{IsOptimizer, IsPhase}

module _ {Q P : Type 0} {S : Structure Q} (ordered : IsOrdered S) (infinity : Q)
    (entire : Interval Q) {O : Optimizer Q P} {rows : P → List Q → Bool}
    (law : IsOptimizer S O rows) (phase : ℕ) where
  judge-delta_sat :
      (status : Status) (n : ℕ) (obj x : List Q)
      → IsPhase phase
      → judge S infinity entire phase status n obj x ≡ some delta_sat
      → status ≢ infeasible
  unfolding judge
  judge-delta_sat optimal n obj x one_two h = ground (arith)
  judge-delta_sat unbounded n obj x one_two h = ground (arith)
  judge-delta_sat infeasible n obj x (inl one) h = ground (arith)
  judge-delta_sat infeasible n obj x (inr two) h = ground (arith)
  judge-delta_sat other n obj x one_two h = ground (arith)

  -- Every column with an objective has the value 0.
  abbrev pub NoObjective : ℕ → List Q → List Q → Type 0
  NoObjective n obj x =
      (i : ℕ) (o a : Q)
      → i < n
      → get_elem? obj i ≡ some o
      → get_elem? x i ≡ some a
      → (S.equal o S.zero || S.equal a S.zero) ≡ true

  no_objective-all :
      (n : ℕ) (obj x : List Q)
      → no_objective S infinity entire n obj x ≡ some true
      → NoObjective n obj x
  unfolding no_objective get_elem?
  no_objective-all zero obj x h i o a small e e' = absurd (omega (arith, small))
  no_objective-all (suc n) [] x h i o a small e e' = ground (arith)
  no_objective-all (suc n) (o1 ∷ obj) [] h i o a small e e' = ground (arith)
  no_objective-all (suc n) (o1 ∷ obj) (a1 ∷ x) h zero o a small e e' = ground (arith)
  no_objective-all (suc n) (o1 ∷ obj) (a1 ∷ x) h (suc i) o a small e e' =
      elim (Bool-cases (S.equal o1 S.zero || S.equal a1 S.zero)) [
        | inl e1 ↦ no_objective-all n obj x (ground (arith)) i o a (omega (arith, small)) e e'
        | inr e1 ↦ ground (arith)
      ]

  judge-NoObjective :
      (status : Status) (n : ℕ) (obj x : List Q)
      → phase ≡ 2
      → judge S infinity entire phase status n obj x ≡ some delta_sat
      → NoObjective n obj x
  unfolding judge
  judge-NoObjective status n obj x two h =
      no_objective-all n obj x (elim (Option-cases (no_objective S infinity entire n obj x)) [
        | inl e ↦ ground (arith)
        | inr (true, e) ↦ e
        | inr (false, e) ↦ ground (arith)
      ])

  -- A solution of the problem, which the model has.
  abbrev Solved : P → List Q → List Q → Columns → TheorySolver Q → Type 0
  Solved prob lower upper m st' =
      let p = O.change_upper upper (O.change_lower lower prob) in
      (x : List Q) × Within S lower upper x
      × (rows prob x ≡ true)
      × All (Copied x st'.model) m
      × (phase ≡ 2 → NoObjective (O.num_cols p) (O.get_obj (O.optimize p).1) x)

  solve-solution :
      (assertions : Literals) (lower upper : List Q) (prob p' : P) (m : Columns)
      (st st' : TheorySolver Q)
      → let p = O.change_upper upper (O.change_lower lower prob) in
        IsPhase phase
        → IsShaped st.model
        → HasAll st.model m
        → Distinct m
        → solve S infinity entire O phase assertions p m st ≡ some (delta_sat, p', st')
        → Solved prob lower upper m st'
  unfolding solve
  solve-solution assertions lower upper prob p' m st st' one_two shaped all far h =
      let p = O.change_upper upper (O.change_lower lower prob) in
      let (status, p1) = O.optimize p in
      let (have, x) = O.get_primal (zeros S infinity entire (O.num_cols p)) p1 in
      elim (Option-cases (judge S infinity entire phase status (O.num_cols p) (O.get_obj p1) x)) [
        | inl e ↦ ground (arith)
        | inr (unsat, e) ↦ ground (arith)
        | inr (delta_sat, e) ↦ elim (Bool-cases have) [
          | inr lost ↦ ground (arith)
          | inl found ↦ elim (Option-cases (copy_solution S infinity entire x m st.model)) [
            | inl e' ↦ ground (arith)
            | inr (model, e') ↦
                let feasible = judge-delta_sat status (O.num_cols p) (O.get_obj p1) x one_two e in
                let start = zeros S infinity entire (O.num_cols p) in
                let (within, hold) =
                  law.solution lower upper start x prob feasible (ap (λ b. (b, x)) found) in
                (
                  x,
                  within,
                  hold,
                  copy_solution-Copied ordered infinity entire x m st.model st'.model shaped all far
                      (ground (arith)),
                  λ two. judge-NoObjective status (O.num_cols p) (O.get_obj p1) x two e,
                )
          ]
        ]
      ]

  check_sat-both :
      (box : Box Q) (assertions : Literals) (prob p' : P) (lower upper : List Q) (m : Columns)
      (st st' : TheorySolver Q)
      → S.less S.zero (S.minus S.zero infinity) ≡ false
      → S.less infinity S.zero ≡ false
      → IsPhase phase
      → IsShaped box
      → Distinct m
      → check_sat S infinity entire O phase box assertions prob lower upper m st
        ≡ some (delta_sat, p', st')
      → All (IsPoint S lower upper st'.model) m
        × ((O.num_rows prob == 0) ≡ false → Solved prob lower upper m st')
  unfolding check_sat
  check_sat-both box assertions prob p' lower upper m st st' low high one_two shaped far h =
      let none_left = O.num_rows prob == 0 in
      elim (Option-cases (add_missing S infinity entire m box)) [
        | inl e ↦ ground (arith)
        | inr (model0, e) ↦
            let all = add_missing-HasAll ordered infinity entire m box model0 shaped e in
            let shaped' = add_missing-IsShaped ordered infinity entire m box model0 shaped e in
            let Checked = λ (model : Box Q) (t : Bool).
              check_bounds S infinity entire lower upper t m model0 ≡ some (true, model) in
            elim (Option-cases (check_bounds S infinity entire lower upper none_left m model0)) [
              | inl e' ↦ ground (arith)
              | inr ((false, model), e') ↦ ground (arith)
              | inr ((true, model), e') ↦ elim (Bool-cases none_left) [
                | inl empty ↦
                    let same : model ≡ st'.model = ground (arith) in
                    let checked : Checked st'.model true =
                      subst (Checked model) empty e' ∙ ap (λ b. some (true, b)) same in
                    (
                      check_bounds-IsPoint ordered infinity entire lower upper m model0 st'.model
                          low high shaped' all far checked,
                      λ full. ground (arith),
                    )
                | inr full ↦
                    let same =
                      check_bounds-rows ordered infinity entire lower upper true m model0 model
                        (subst (Checked model) full e') in
                    let (x, within, hold, copied, rest) =
                      solve-solution assertions lower upper prob p' m (record st { model = model })
                        st' one_two (subst IsShaped (sym same) shaped')
                        (subst (λ b. HasAll b m) (sym same) all) far (ground (arith)) in
                    (
                      All-imp (λ c (a, e1, e2). (a, e2, within c.0 a e1)) m copied,
                      λ _. (x, within, hold, copied, rest),
                    )
              ]
            ]
      ]

  -- When `CheckSat` of the theory solver answers that there is a solution, in either phase, its
  -- model has for every variable with a column a single number within the bounds of the column: no
  -- two columns are of one variable, every variable of the box has an interval, zero lies between
  -- the infinities, and SoPlex keeps its promise.
  pub check_sat-IsPoint :
      (box : Box Q) (assertions : Literals) (prob p' : P) (lower upper : List Q) (m : Columns)
      (st st' : TheorySolver Q)
      → S.less S.zero (S.minus S.zero infinity) ≡ false
      → S.less infinity S.zero ≡ false
      → IsPhase phase
      → IsShaped box
      → Distinct m
      → check_sat S infinity entire O phase box assertions prob lower upper m st
        ≡ some (delta_sat, p', st')
      → All (IsPoint S lower upper st'.model) m
  check_sat-IsPoint box assertions prob p' lower upper m st st' low high one_two shaped far h =
      (check_sat-both box assertions prob p' lower upper m st st' low high one_two shaped far h).0

  -- When `CheckSat` of the theory solver answers that there is a solution of a problem with rows,
  -- there is a point within the bounds that satisfies the rows, and the model has its numbers;
  -- under the same conditions.
  pub check_sat-solution :
      (box : Box Q) (assertions : Literals) (prob p' : P) (lower upper : List Q) (m : Columns)
      (st st' : TheorySolver Q)
      → S.less S.zero (S.minus S.zero infinity) ≡ false
      → S.less infinity S.zero ≡ false
      → IsPhase phase
      → IsShaped box
      → Distinct m
      → (O.num_rows prob == 0) ≡ false
      → check_sat S infinity entire O phase box assertions prob lower upper m st
        ≡ some (delta_sat, p', st')
      → (x : List Q) × Within S lower upper x × (rows prob x ≡ true) × All (Copied x st'.model) m
  check_sat-solution box assertions prob p' lower upper m st st' low high one_two shaped far full
        h =
      let (_, solved) =
        check_sat-both box assertions prob p' lower upper m st st' low high one_two shaped far h in
      let (x, within, hold, copied, _) = solved full in (x, within, hold, copied)

  -- When `CheckSat` of the theory solver answers in phase two that there is a solution of a problem
  -- with rows, there is one point that lies within the bounds, satisfies the rows and is zero at
  -- every column with an objective, and the model has its numbers; under the conditions of
  -- `check_sat-IsPoint`.
  pub check_sat-NoObjective :
      (box : Box Q) (assertions : Literals) (prob p' : P) (lower upper : List Q) (m : Columns)
      (st st' : TheorySolver Q)
      → S.less S.zero (S.minus S.zero infinity) ≡ false
      → S.less infinity S.zero ≡ false
      → phase ≡ 2
      → IsShaped box
      → Distinct m
      → (O.num_rows prob == 0) ≡ false
      → check_sat S infinity entire O phase box assertions prob lower upper m st
        ≡ some (delta_sat, p', st')
      → let p = O.change_upper upper (O.change_lower lower prob) in
        (x : List Q) × Within S lower upper x
        × (rows prob x ≡ true)
        × All (Copied x st'.model) m
        × NoObjective (O.num_cols p) (O.get_obj (O.optimize p).1) x
  check_sat-NoObjective box assertions prob p' lower upper m st st' low high two shaped far full h =
      let (_, solved) =
        check_sat-both box assertions prob p' lower upper m st st' low high (inr two) shaped far
          h in
      let (x, within, hold, copied, zero_cols) = solved full in
      (x, within, hold, copied, zero_cols two)
