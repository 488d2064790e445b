-- ===== src/IteEliminator/Conditional.antt =====
-- The variable that stands for a conditional expression.
use dlinear.Base.{
  ◌+◌, true, false, not, ◌||◌, ◌&&◌, ◌≡◌, sym, ◌∙◌, subst, [], ◌∷◌, ◌++◌, if◌then◌else◌, All-append,
  Bool-cases, inl, inr, arith,
}
use dlinear.Symbolic.Syntax.{Expression, variable, if_then_else, Formula}
use dlinear.Symbolic.Meaning.{Structure, IsOrdered, Env, value_of, holds}
use dlinear.Symbolic.Satisfy.{satisfies, satisfies-snoc, satisfies-Agree}
use dlinear.Symbolic.Fits.{ExpressionFits, Fits, value_of-Agree}
use dlinear.Symbolic.Weaken.{Fits-le}
use dlinear.Symbolic.Library.{Library, IsSound, IsClosed}
use dlinear.PlaistedGreenbaum.Fresh.{Agree-trans}
use dlinear.IteEliminator.{State, fresh, then_guard, else_guard, says}
use dlinear.IteEliminator.Steps.{IsBelow, Extends, Step, ValueKept, TruthKept}
use dlinear.IteEliminator.Taken.{
  in_ids-snoc, taken, define_value, Agree-define_value, define_value_self, IsBelow-taken,
  equal_refl, holds-says, says-Fits,
}

module _ {Q : Type 0} {S : Structure Q} {L : Library Q} (ordered : IsOrdered S) (law : IsSound S L)
    (closed : IsClosed L) where
  module _ (f : Formula Q) (d e : Expression Q) (guard c : Formula Q) (d1 e1 : Expression Q)
      (s s3 : State Q)
      (whole : Step S (taken s) s3 (λ env.
        (TruthKept S guard c f env × ValueKept S (then_guard L guard c) d1 d env)
        × ValueKept S (else_guard L guard c) e1 e env)) where
    -- The state with the two formulas on the value.
    abbrev said : State Q
    said = record s3 {
      added =
          (s3.added ++ says L (then_guard L guard c) (fresh s.next) d1 ∷ [])
          ++ says L (else_guard L guard c) (fresh s.next) e1 ∷ [];
    }

    satisfies-said :
        (env : Env Q)
        → satisfies S env said.added ≡ (
            satisfies S env s3.added
            && (not (holds S env guard && holds S env c)
                || S.equal (env.value s.next) (value_of S env d1))
            && (not (holds S env guard && not (holds S env c))
                || S.equal (env.value s.next) (value_of S env e1)))
    satisfies-said env =
        let v = fresh s.next in
        let t = then_guard L guard c in
        let o = else_guard L guard c in
        ground (
          arith,
          satisfies-snoc S env (s3.added ++ says L t v d1 ∷ []) (says L o v e1),
          satisfies-snoc S env s3.added (says L t v d1),
          holds-says ordered law closed env t v d1,
          holds-says ordered law closed env o v e1,
          law.holds-both env guard c,
          law.holds-both env guard (L.negate c),
          law.holds-negate env c,
        )

    -- Where the formulas hold, the variable has the value.
    sound_value :
        (env : Env Q)
        → satisfies S env said.added ≡ true
        → (satisfies S env s.added ≡ true)
          × ValueKept S guard (variable (fresh s.next)) (if_then_else f d e) env
    unfolding holds
    sound_value env h =
        let all = satisfies-said env in
        let old : satisfies S env s3.added ≡ true = ground (arith) in
        let (before, ((condition, first), second)) = whole.sound env old in
        (
          before,
          λ g.
              let same = condition g in
              elim (Bool-cases (holds S env c)) [
                | inl met ↦
                    let guarded : holds S env (then_guard L guard c) ≡ true =
                      ground (arith, law.holds-both env guard c) in
                    let value = first guarded in
                    let equal1 : S.equal (env.value s.next) (value_of S env d1) ≡ true =
                      ground (arith) in
                    let this = ordered.eq_of_equal _ _ equal1 in
                    let holds_f : holds S env f ≡ true = ground (arith) in rw holds_f (this ∙ value)
                | inr unmet ↦
                    let guarded : holds S env (else_guard L guard c) ≡ true =
                      ground
                        (arith, law.holds-both env guard (L.negate c), law.holds-negate env c) in
                    let value = second guarded in
                    let equal1 : S.equal (env.value s.next) (value_of S env e1) ≡ true =
                      ground (arith) in
                    let this = ordered.eq_of_equal _ _ equal1 in
                    let holds_f : holds S env f ≡ false = ground (arith) in
                    rw holds_f (this ∙ value)
              ],
        )

    equal_of_eq : (a b : Q) → a ≡ b → S.equal a b ≡ true
    equal_of_eq a b h = subst (λ x. S.equal a x ≡ true) h (equal_refl ordered law closed a)

    -- Where the variable has the value, the formulas hold.
    said_holds :
        (env : Env Q)
        → satisfies S env s3.added ≡ true
        → env.value s.next ≡ value_of S env (if_then_else f d e)
        → satisfies S env said.added ≡ true
    unfolding holds
    said_holds env h value =
        let all = satisfies-said env in
        let (_, ((condition, first), second)) = whole.sound env h in
        elim (Bool-cases (holds S env guard)) [
          | inr off ↦ ground (arith)
          | inl g ↦
              let same = condition g in
              elim (Bool-cases (holds S env c)) [
                | inl met ↦
                    let guarded : holds S env (then_guard L guard c) ≡ true =
                      ground (arith, law.holds-both env guard c) in
                    let holds_f : holds S env f ≡ true = ground (arith) in
                    let this : env.value s.next ≡ value_of S env d1 =
                      subst
                        (λ t. env.value s.next ≡ (if t then value_of S env d else value_of S env e))
                        holds_f value
                      ∙ sym (first guarded) in
                    let equal1 = equal_of_eq _ _ this in ground (arith)
                | inr unmet ↦
                    let guarded : holds S env (else_guard L guard c) ≡ true =
                      ground
                        (arith, law.holds-both env guard (L.negate c), law.holds-negate env c) in
                    let holds_f : holds S env f ≡ false = ground (arith) in
                    let this : env.value s.next ≡ value_of S env e1 =
                      subst
                        (λ t. env.value s.next ≡ (if t then value_of S env d else value_of S env e))
                        holds_f value
                      ∙ sym (second guarded) in
                    let equal1 = equal_of_eq _ _ this in ground (arith)
              ]
        ]

    complete_value :
        ExpressionFits s.next (if_then_else f d e)
        → Fits s.next guard
        → (env : Env Q) → IsBelow s
        → satisfies S env s.added ≡ true
        → (env' : Env Q) × Extends S s said env env'
    unfolding holds
    complete_value w wg env b h =
        let t = value_of S env (if_then_else f d e) in
        let env0 = define_value s.next t env in
        let agree0 = Agree-define_value s.next t env in
        let h0 : satisfies S env0 s.added ≡ true =
          satisfies-Agree S s.next env env0 s.added b.formulas agree0 h in
        let (env1, x) = whole.complete env0 (IsBelow-taken s b) h0 in
        let agree = Agree-trans s.next (s.next + 1) env env0 env1 (omega arith) agree0 x.agree in
        let value : env1.value s.next ≡ value_of S env1 (if_then_else f d e) =
          sym (x.agree.on_value s.next (omega arith))
          ∙ (define_value_self s.next t env
              ∙ value_of-Agree S (if_then_else f d e) s.next env env1 w agree) in
        (
          env1,
          record {
            agree = agree;
            only = record {
              same_truth = x.only.same_truth;
              same_value = λ i out.
                  (let apart = whole.old_variables i out in
                    let other = in_ids-snoc i s.variables (fresh s.next) in
                    let start : env.value i ≡ env0.value i = ground (arith) in
                    start ∙ x.only.same_value i out);
            };
            satisfied = said_holds env1 (x.satisfied) value;
          },
        )

    said-IsBelow :
        Fits s.next guard
        → Fits s3.next c
        → ExpressionFits s3.next d1
        → ExpressionFits s3.next e1
        → IsBelow s
        → IsBelow said
    said-IsBelow wg wc wd we b =
        let grown = whole.grows in
        let old = whole.below (IsBelow-taken s b) in
        let guard_fits = Fits-le guard s.next s3.next (omega arith) wg in
        record {
          formulas =
              All-append _ (s3.added ++ _ ∷ []) (_ ∷ [])
                (All-append _ s3.added (_ ∷ []) old.formulas (
                  says-Fits ordered law closed s3.next (then_guard L guard c) (fresh s.next) d1
                      (closed.both-Fits s3.next guard c guard_fits wc) (omega arith) wd,
                  tt,
                ))
                (
                  says-Fits ordered law closed s3.next (else_guard L guard c) (fresh s.next) e1
                      (closed.both-Fits s3.next guard (L.negate c) guard_fits
                        (closed.negate-Fits s3.next c wc))
                      (omega arith) we,
                  tt,
                );
          variables = old.variables;
        }

    -- The step of a conditional expression.
    pub conditional :
        ExpressionFits s.next (if_then_else f d e)
        → Fits s.next guard
        → Fits s3.next c
        → ExpressionFits s3.next d1
        → ExpressionFits s3.next e1
        → Step S s said (ValueKept S guard (variable (fresh s.next)) (if_then_else f d e))
          × ExpressionFits {Q = Q} said.next (variable (fresh s.next))
    unfolding Fits
    conditional w wg wc wd we =
        let grown = whole.grows in
        (
          record {
            grows = omega arith;
            old_variables = λ i out.
                (let apart = whole.old_variables i out in
                  let other = in_ids-snoc i s.variables (fresh s.next) in ground (arith));
            new_variables = λ i l out.
                (let other = in_ids-snoc i s.variables (fresh s.next) in
                  whole.new_variables i (omega arith) (ground (arith)));
            below = said-IsBelow wg wc wd we;
            sound = sound_value;
            complete = complete_value w wg;
          },
          omega arith,
        )
