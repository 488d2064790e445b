-- ===== src/IteEliminator/Visit.antt =====
-- Every visit is a step that keeps the meaning, for any treatment of quantified formulas that does.
use dlinear.Base.{ℕ, ◌≤◌, ◌<◌, true, not, ◌||◌, ◌&&◌, ◌≡◌, sym, ◌∙◌, ap, ap₂, arith}
use dlinear.Symbolic.Syntax.{
  Variables, Expression, constant, variable, addition, multiplication, unary, binary, if_then_else,
  uninterpreted, Terms, no_term, term, Factors, no_factor, factor, Formula, Formulas, bot, top,
  prop, eq, neq, gt, geq, lt, leq, conj, disj, neg, forall, nil, cons,
}
use dlinear.Symbolic.Meaning.{
  Structure, IsOrdered, value_of, sum_of, product_of, holds, all_hold, some_holds,
}
use dlinear.Symbolic.Fits.{ExpressionFits, TermsFit, FactorsFit, Fits, AllFit}
use dlinear.Symbolic.Weaken.{ExpressionFits-le, TermsFit-le, FactorsFit-le, Fits-le, AllFit-le}
use dlinear.Symbolic.Library.{Library, IsSound, IsClosed, insert}
use dlinear.Nnfizer.Laws.{all_hold-insert, some_holds-insert}
use dlinear.Nnfizer.Closed.{insert-AllFit}
use dlinear.IteEliminator.{
  Operators, State, then_guard, else_guard, visit, visit_terms, visit_factors, visit_formula,
  visit_all, nesting, nesting_expression, nesting_terms, nesting_factors, nesting_all,
}
use dlinear.IteEliminator.Conditional.{conditional}
use dlinear.IteEliminator.Taken.{taken}
use dlinear.IteEliminator.Meanings.{IsOperators, Regroups}
use dlinear.IteEliminator.Steps.{Step, stay, chain, meaning}
use dlinear.IteEliminator.Promise.{
  Visited, FormulaVisited, unchanged, unchanged_formula, kept, value_of-apply, apply-Fits, two,
  compared,
}

module _ {Q : Type 0} {S : Structure Q} {L : Library Q} {B : Operators Q} (ordered : IsOrdered S)
    (law : IsSound S L) (closed : IsClosed L) (operators : IsOperators S B) (regroups : Regroups S)
    (inner : Formula Q → ℕ → Formula Q × Variables × ℕ) where
  module _ (k : ℕ)
      (quantified : (vs : Variables) (f guard : Formula Q) (s : State Q)
        → nesting f < k
        → Fits s.next (forall vs f)
        → FormulaVisited ordered law closed operators regroups inner
            (forall vs f)
            guard
            s
            (visit_formula L B inner (forall vs f) guard s)) where
    mutual
      unfolding visit nesting holds Fits

      pub visit_step :
          (e : Expression Q) (guard : Formula Q) (s : State Q)
          → nesting_expression e ≤ k
          → ExpressionFits s.next e
          → Fits s.next guard
          → Visited ordered law closed operators regroups inner e guard s
              (visit L B inner e guard s)
      visit_step (constant c) guard s h w wg =
          unchanged ordered law closed operators regroups inner (constant c) guard s w
      visit_step (variable v) guard s h w wg =
          unchanged ordered law closed operators regroups inner (variable v) guard s w
      visit_step (addition c ts) guard s h w wg =
          kept ordered law closed operators regroups inner (addition c ts) guard s _ w
            (visit_terms_step ts (constant c) guard s h w tt wg)
      visit_step (multiplication c fs) guard s h w wg =
          kept ordered law closed operators regroups inner (multiplication c fs) guard s _ w
            (visit_factors_step fs (constant c) guard s h w tt wg)
      visit_step (unary op e) guard s h w wg =
          let (d, s1) = visit L B inner e guard s in
          let (a, wd) = visit_step e guard s h w wg in
          kept ordered law closed operators regroups inner (unary op e) guard s _ w (
            meaning S s s1 _ _
                (λ env p g. operators.value_of-make_unary env op d ∙ ap (S.apply_unary op) (p g)) a,
            operators.make_unary-Fits s1.next op d wd,
          )
      visit_step (binary op d e) guard s h w wg =
          let (d1, s1) = visit L B inner d guard s in
          let (e1, s2) = visit L B inner e guard s1 in
          let (a, b, wd, we) =
            two ordered law closed operators regroups inner d e guard s (d1, s1) (e1, s2)
              (visit_step d guard s (omega arith) w.0 wg)
              (λ l.
                visit_step e guard s1 (omega arith) (ExpressionFits-le e s.next s1.next l w.1)
                  (Fits-le guard s.next s1.next l wg)) in
          kept ordered law closed operators regroups inner (binary op d e) guard s _ w (
            meaning S s s2 _ _
                (λ env (p, q) g.
                  value_of-apply ordered law closed operators regroups inner env op d1 e1
                  ∙ ap₂ (S.apply_binary op) (p g) (q g))
                (chain S s s1 s2 _ _ a b),
            apply-Fits ordered law closed operators regroups inner s2.next op d1 e1 wd we,
          )
      visit_step (if_then_else f d e) guard s h w wg =
          let s0 = taken s in
          let (c, s1) = visit_formula L B inner f guard s0 in
          let t = then_guard L guard c in
          let o = else_guard L guard c in
          let (d1, s2) = visit L B inner d t s1 in
          let (e1, s3) = visit L B inner e o s2 in
          let (a, wc) =
            visit_formula_step f guard s0 (omega arith) (Fits-le f s.next s0.next (omega arith) w.0)
              (Fits-le guard s.next s0.next (omega arith) wg) in
          let grown1 = a.grows in
          let guard1 = Fits-le guard s.next s1.next (omega arith) wg in
          let (b, wd) =
            visit_step d t s1 (omega arith) (ExpressionFits-le d s.next s1.next (omega arith) w.1)
              (closed.both-Fits s1.next guard c guard1 wc) in
          let grown2 = b.grows in
          let wc2 = Fits-le c s1.next s2.next grown2 wc in
          let guard2 = Fits-le guard s.next s2.next (omega arith) wg in
          let (x, we) =
            visit_step e o s2 (omega arith) (ExpressionFits-le e s.next s2.next (omega arith) w.2) (
              closed.both-Fits s2.next guard (L.negate c) guard2
                (closed.negate-Fits s2.next c wc2)) in
          let grown3 = x.grows in
          kept ordered law closed operators regroups inner (if_then_else f d e) guard s _ w (
            conditional ordered law closed f d e guard c d1 e1 s s3
              (chain S s0 s2 s3 _ _ (chain S s0 s1 s2 _ _ a b) x) w wg
              (Fits-le c s2.next s3.next grown3 wc2)
              (ExpressionFits-le d1 s2.next s3.next grown3 wd) we)
      visit_step (uninterpreted name vs) guard s h w wg =
          unchanged ordered law closed operators regroups inner (uninterpreted name vs) guard s w

      visit_terms_step :
          (ts : Terms Q) (ret : Expression Q) (guard : Formula Q) (s : State Q)
          → nesting_terms ts ≤ k
          → TermsFit s.next ts
          → ExpressionFits s.next ret
          → Fits s.next guard
          → let r = visit_terms L B inner ts ret guard s in
            Step S s r.1 (λ env.
              holds S env guard ≡ true
              → value_of S env r.0 ≡ S.plus (value_of S env ret) (sum_of S env ts))
            × ExpressionFits r.1.next r.0
      visit_terms_step no_term ret guard s h w wr wg =
          (stay S s _ (λ env g. sym (regroups.plus_zero (value_of S env ret))), wr)
      visit_terms_step (term e c ts) ret guard s h w wr wg =
          let (e1, s1) = visit L B inner e guard s in
          let (a, we) = visit_step e guard s (omega arith) w.0 wg in
          let grown = a.grows in
          let product = B.times (constant c) e1 in
          let ret1 = B.plus ret product in
          let (b, wb) =
            visit_terms_step ts ret1 guard s1 (omega arith)
              (TermsFit-le ts s.next s1.next grown w.1)
              (operators.plus-Fits s1.next ret product
                (ExpressionFits-le ret s.next s1.next grown wr)
                (operators.times-Fits s1.next (constant c) e1 tt we))
              (Fits-le guard s.next s1.next grown wg) in
          (
            meaning S s _ _ _
                (λ env (p, q) g.
                  q g
                  ∙ (ap (λ x. S.plus x (sum_of S env ts))
                        (operators.value_of-plus env ret product
                          ∙ ap (S.plus (value_of S env ret))
                              (operators.value_of-times env (constant c) e1 ∙ ap (S.times c) (p g)))
                      ∙ regroups.plus_assoc (value_of S env ret) (S.times c (value_of S env e))
                          (sum_of S env ts)))
                (chain S s s1 _ _ _ a b),
            wb,
          )

      visit_factors_step :
          (fs : Factors Q) (ret : Expression Q) (guard : Formula Q) (s : State Q)
          → nesting_factors fs ≤ k
          → FactorsFit s.next fs
          → ExpressionFits s.next ret
          → Fits s.next guard
          → let r = visit_factors L B inner fs ret guard s in
            Step S s r.1 (λ env.
              holds S env guard ≡ true
              → value_of S env r.0 ≡ S.times (value_of S env ret) (product_of S env fs))
            × ExpressionFits r.1.next r.0
      visit_factors_step no_factor ret guard s h w wr wg =
          (stay S s _ (λ env g. sym (regroups.times_one (value_of S env ret))), wr)
      visit_factors_step (factor e d fs) ret guard s h w wr wg =
          let (e1, s1) = visit L B inner e guard s in
          let (d1, s2) = visit L B inner d guard s1 in
          let (a, b, we, wd) =
            two ordered law closed operators regroups inner e d guard s (e1, s1) (d1, s2)
              (visit_step e guard s (omega arith) w.0 wg)
              (λ l.
                visit_step d guard s1 (omega arith) (ExpressionFits-le d s.next s1.next l w.1)
                  (Fits-le guard s.next s1.next l wg)) in
          let both = chain S s s1 s2 _ _ a b in
          let grown = both.grows in
          let power1 = B.pow e1 d1 in
          let ret1 = B.times ret power1 in
          let (c, wc) =
            visit_factors_step fs ret1 guard s2 (omega arith)
              (FactorsFit-le fs s.next s2.next grown w.2)
              (operators.times-Fits s2.next ret power1
                (ExpressionFits-le ret s.next s2.next grown wr)
                (operators.pow-Fits s2.next e1 d1 we wd))
              (Fits-le guard s.next s2.next grown wg) in
          (
            meaning S s _ _ _
                (λ env ((p, o), q) g.
                  q g
                  ∙ (ap (λ x. S.times x (product_of S env fs))
                        (operators.value_of-times env ret power1
                          ∙ ap (S.times (value_of S env ret))
                              (operators.value_of-pow env e1 d1 ∙ ap₂ S.pow (p g) (o g)))
                      ∙ regroups.times_assoc (value_of S env ret)
                          (S.pow (value_of S env e) (value_of S env d)) (product_of S env fs)))
                (chain S s s2 _ _ _ both c),
            wc,
          )

      pub visit_formula_step :
          (f guard : Formula Q) (s : State Q)
          → nesting f ≤ k
          → Fits s.next f
          → Fits s.next guard
          → FormulaVisited ordered law closed operators regroups inner f guard s
              (visit_formula L B inner f guard s)
      visit_formula_step bot guard s h w wg =
          unchanged_formula ordered law closed operators regroups inner bot guard s w
      visit_formula_step top guard s h w wg =
          unchanged_formula ordered law closed operators regroups inner top guard s w
      visit_formula_step (prop v) guard s h w wg =
          unchanged_formula ordered law closed operators regroups inner (prop v) guard s w
      visit_formula_step (eq d e) guard s h w wg =
          let (d1, s1) = visit L B inner d guard s in
          let (e1, s2) = visit L B inner e guard s1 in
          let (a, b, wd, we) =
            two ordered law closed operators regroups inner d e guard s (d1, s1) (e1, s2)
              (visit_step d guard s (omega arith) w.0 wg)
              (λ l.
                visit_step e guard s1 (omega arith) (ExpressionFits-le e s.next s1.next l w.1)
                  (Fits-le guard s.next s1.next l wg)) in
          compared ordered law closed operators regroups inner (eq d e) guard s s1 s2 d e d1 e1
            (L.equal_to d1 e1) a b (λ env p q. law.holds-equal_to env d1 e1 ∙ ap₂ S.equal p q)
            (closed.equal_to-Fits s2.next d1 e1 wd we)
      visit_formula_step (neq d e) guard s h w wg =
          let (d1, s1) = visit L B inner d guard s in
          let (e1, s2) = visit L B inner e guard s1 in
          let (a, b, wd, we) =
            two ordered law closed operators regroups inner d e guard s (d1, s1) (e1, s2)
              (visit_step d guard s (omega arith) w.0 wg)
              (λ l.
                visit_step e guard s1 (omega arith) (ExpressionFits-le e s.next s1.next l w.1)
                  (Fits-le guard s.next s1.next l wg)) in
          compared ordered law closed operators regroups inner (neq d e) guard s s1 s2 d e d1 e1
            (L.not_equal_to d1 e1) a b
            (λ env p q. law.holds-not_equal_to env d1 e1 ∙ ap₂ (λ x y. not (S.equal x y)) p q)
            (closed.not_equal_to-Fits s2.next d1 e1 wd we)
      visit_formula_step (gt d e) guard s h w wg =
          let (d1, s1) = visit L B inner d guard s in
          let (e1, s2) = visit L B inner e guard s1 in
          let (a, b, wd, we) =
            two ordered law closed operators regroups inner d e guard s (d1, s1) (e1, s2)
              (visit_step d guard s (omega arith) w.0 wg)
              (λ l.
                visit_step e guard s1 (omega arith) (ExpressionFits-le e s.next s1.next l w.1)
                  (Fits-le guard s.next s1.next l wg)) in
          compared ordered law closed operators regroups inner (gt d e) guard s s1 s2 d e d1 e1
            (L.greater_than d1 e1) a b
            (λ env p q. law.holds-greater_than env d1 e1 ∙ ap₂ (λ x y. S.less y x) p q)
            (closed.greater_than-Fits s2.next d1 e1 wd we)
      visit_formula_step (geq d e) guard s h w wg =
          let (d1, s1) = visit L B inner d guard s in
          let (e1, s2) = visit L B inner e guard s1 in
          let (a, b, wd, we) =
            two ordered law closed operators regroups inner d e guard s (d1, s1) (e1, s2)
              (visit_step d guard s (omega arith) w.0 wg)
              (λ l.
                visit_step e guard s1 (omega arith) (ExpressionFits-le e s.next s1.next l w.1)
                  (Fits-le guard s.next s1.next l wg)) in
          compared ordered law closed operators regroups inner (geq d e) guard s s1 s2 d e d1 e1
            (L.greater_than_or_equal_to d1 e1) a b
            (λ env p q.
              law.holds-greater_than_or_equal_to env d1 e1 ∙ ap₂ (λ x y. not (S.less x y)) p q)
            (closed.greater_than_or_equal_to-Fits s2.next d1 e1 wd we)
      visit_formula_step (lt d e) guard s h w wg =
          let (d1, s1) = visit L B inner d guard s in
          let (e1, s2) = visit L B inner e guard s1 in
          let (a, b, wd, we) =
            two ordered law closed operators regroups inner d e guard s (d1, s1) (e1, s2)
              (visit_step d guard s (omega arith) w.0 wg)
              (λ l.
                visit_step e guard s1 (omega arith) (ExpressionFits-le e s.next s1.next l w.1)
                  (Fits-le guard s.next s1.next l wg)) in
          compared ordered law closed operators regroups inner (lt d e) guard s s1 s2 d e d1 e1
            (L.less_than d1 e1) a b (λ env p q. law.holds-less_than env d1 e1 ∙ ap₂ S.less p q)
            (closed.less_than-Fits s2.next d1 e1 wd we)
      visit_formula_step (leq d e) guard s h w wg =
          let (d1, s1) = visit L B inner d guard s in
          let (e1, s2) = visit L B inner e guard s1 in
          let (a, b, wd, we) =
            two ordered law closed operators regroups inner d e guard s (d1, s1) (e1, s2)
              (visit_step d guard s (omega arith) w.0 wg)
              (λ l.
                visit_step e guard s1 (omega arith) (ExpressionFits-le e s.next s1.next l w.1)
                  (Fits-le guard s.next s1.next l wg)) in
          compared ordered law closed operators regroups inner (leq d e) guard s s1 s2 d e d1 e1
            (L.less_than_or_equal_to d1 e1) a b
            (λ env p q.
              law.holds-less_than_or_equal_to env d1 e1 ∙ ap₂ (λ x y. not (S.less y x)) p q)
            (closed.less_than_or_equal_to-Fits s2.next d1 e1 wd we)
      visit_formula_step (conj fs) guard s h w wg =
          let (gs, s1) = visit_all L B inner fs nil guard s in
          let (a, ws) = visit_all_step fs nil guard s h w tt wg in
          (
            meaning S s s1 _ _ (λ env p g. law.holds-make_conjunction env gs ∙ (p g).0) a,
            closed.make_conjunction-Fits s1.next gs ws,
          )
      visit_formula_step (disj fs) guard s h w wg =
          let (gs, s1) = visit_all L B inner fs nil guard s in
          let (a, ws) = visit_all_step fs nil guard s h w tt wg in
          (
            meaning S s s1 _ _ (λ env p g. law.holds-make_disjunction env gs ∙ (p g).1) a,
            closed.make_disjunction-Fits s1.next gs ws,
          )
      visit_formula_step (neg f) guard s h w wg =
          let (g, s1) = visit_formula L B inner f guard s in
          let (a, wf) = visit_formula_step f guard s h w wg in
          (
            meaning S s s1 _ _ (λ env p t. law.holds-negate env g ∙ ap not (p t)) a,
            closed.negate-Fits s1.next g wf,
          )
      visit_formula_step (forall vs f) guard s h w wg = quantified vs f guard s (omega arith) w

      visit_all_step :
          (fs r : Formulas Q) (guard : Formula Q) (s : State Q)
          → nesting_all fs ≤ k
          → AllFit s.next fs
          → AllFit s.next r
          → Fits s.next guard
          → let a = visit_all L B inner fs r guard s in
            Step S s a.1 (λ env.
              holds S env guard ≡ true
              → (all_hold S env a.0 ≡ (all_hold S env r && all_hold S env fs))
                × (some_holds S env a.0 ≡ (some_holds S env r || some_holds S env fs)))
            × AllFit a.1.next a.0
      visit_all_step nil r guard s h w wr wg =
          (stay S s _ (λ env g. (ground arith, ground arith)), wr)
      visit_all_step (cons f fs) r guard s h w wr wg =
          let (g, s1) = visit_formula L B inner f guard s in
          let (a, wf) = visit_formula_step f guard s (omega arith) w.0 wg in
          let grown = a.grows in
          let (b, wb) =
            visit_all_step fs (insert L g r) guard s1 (omega arith)
              (AllFit-le fs s.next s1.next grown w.1)
              (insert-AllFit L s1.next g r wf (AllFit-le r s.next s1.next grown wr))
              (Fits-le guard s.next s1.next grown wg) in
          (
            meaning S s _ _ _
                (λ env (p, q) t.
                  let same = p t in
                  let (every, any) = q t in
                  (
                    every ∙ ground (arith, same, all_hold-insert law env g r),
                    any ∙ ground (arith, same, some_holds-insert law env g r),
                  ))
                (chain S s s1 _ _ _ a b),
            wb,
          )
