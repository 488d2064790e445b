-- ===== src/IteEliminator/Process.antt =====
-- `Process`, by induction on the rounds: the depth of quantifiers is enough of them.
use dlinear.Base.{
  ℕ, zero, suc, ltb, ◌≤◌, ◌<◌, true, false, ◌&&◌, ◌≡◌, refl, ◌∙◌, List, [], ◌∷◌, All, All-imp,
  Bool-cases, inl, inr, arith,
}
use dlinear.Symbolic.Syntax.{Variables, Formula, top, forall}
use dlinear.Symbolic.Meaning.{Structure, IsOrdered, Env, holds}
use dlinear.Symbolic.Satisfy.{satisfies}
use dlinear.Symbolic.Fits.{IdsBelow, Agree, Fits, holds-Agree}
use dlinear.Symbolic.Weaken.{Fits-le, IdsBelow-le}
use dlinear.Symbolic.Library.{Library, IsSound, IsClosed}
use dlinear.PlaistedGreenbaum.Fresh.{Agree-refl}
use dlinear.IteEliminator.{
  Operators, State, conjoin, visit_formula, finish, process_with, process_fuel, process, nesting,
}
use dlinear.IteEliminator.Meanings.{IsOperators, Regroups}
use dlinear.Symbolic.Ids.{in_ids}
use dlinear.IteEliminator.Steps.{Only}
use dlinear.IteEliminator.Promise.{FormulaVisited}
use dlinear.IteEliminator.Visit.{visit_formula_step}
use dlinear.IteEliminator.Quantified.{Processed, holds-quantified, quantified-Fits}

All-new :
    (n m : ℕ) (vs : Variables)
    → ((i : ℕ) → i < n → in_ids i vs ≡ false)
    → IdsBelow m vs
    → All (λ v. (n ≤ v.id) × (v.id < m)) vs
All-new n m [] new below = tt
All-new n m (v ∷ vs) new below = (
  (
    elim (Bool-cases (ltb v.id n)) [
      | inl low ↦ let not_new = new v.id (ground (arith)) in ground (arith)
      | inr high ↦ ground (arith)
    ],
    below.0,
  ),
  All-new n m vs (λ i l. let out = new i l in ground (arith)) below.1,
)

module _ {Q : Type 0} {S : Structure Q} {L : Library Q} (B : Operators Q) (ordered : IsOrdered S)
    (law : IsSound S L) (closed : IsClosed L) (operators : IsOperators S B) (regroups : Regroups S)
    (nesting-negate : (f : Formula Q) → nesting (L.negate f) ≤ nesting f) where
  holds-conjoin :
      (env : Env Q) (f : Formula Q) (fs : List (Formula Q))
      → holds S env (conjoin L f fs) ≡ (holds S env f && satisfies S env fs)
  unfolding conjoin
  holds-conjoin env f [] = ground arith
  holds-conjoin env f (g ∷ gs) =
      holds-conjoin env (L.both f g) gs ∙ ground (arith, law.holds-both env f g)

  conjoin-Fits :
      (n : ℕ) (f : Formula Q) (fs : List (Formula Q))
      → Fits n f
      → All (λ g. Fits n g) fs
      → Fits n (conjoin L f fs)
  unfolding conjoin
  conjoin-Fits n f [] w ws = w
  conjoin-Fits n f (g ∷ gs) w ws =
      conjoin-Fits n (L.both f g) gs (closed.both-Fits n f g w ws.0) ws.1

  module _ (inner : Formula Q → ℕ → Formula Q × Variables × ℕ) where
    holds-finish :
        (env : Env Q) (f new_f : Formula Q) (added : List (Formula Q))
        → holds S env (finish L B inner f new_f added)
          ≡ (holds S env new_f && satisfies S env added)
    unfolding holds
    holds-finish env f new_f [] = elim (Bool-cases (L.same f new_f)) [
      | inl same ↦ rw (same, law.eq_of_same f new_f same) (ground (arith))
      | inr other ↦
          rw other
            (law.holds-both env new_f (conjoin L top []) ∙ ground (arith, holds-conjoin env top []))
    ]
    holds-finish env f new_f (g ∷ gs) =
        law.holds-both env new_f (conjoin L top (g ∷ gs))
        ∙ ground (arith, holds-conjoin env top (g ∷ gs))

    finish-Fits :
        (n : ℕ) (f new_f : Formula Q) (added : List (Formula Q))
        → Fits n f
        → Fits n new_f
        → All (λ g. Fits n g) added
        → Fits n (finish L B inner f new_f added)
    unfolding Fits
    finish-Fits n f new_f [] w wn wa = elim (Bool-cases (L.same f new_f)) [
      | inl same ↦ rw same w
      | inr other ↦
          rw other (closed.both-Fits n new_f (conjoin L top []) wn (conjoin-Fits n top [] tt tt))
    ]
    finish-Fits n f new_f (g ∷ gs) w wn wa =
        closed.both-Fits n new_f (conjoin L top (g ∷ gs)) wn (conjoin-Fits n top (g ∷ gs) tt wa)

    -- A quantified formula, where the inner call keeps its promise.
    quantified_step :
        (vs : Variables) (f guard : Formula Q) (s : State Q)
        → Fits s.next (forall vs f)
        → Processed S (L.negate f) s.next (inner (L.negate f) s.next)
        → FormulaVisited ordered law closed operators regroups inner
            (forall vs f)
            guard
            s
            (visit_formula L B inner (forall vs f) guard s)
    unfolding visit_formula Fits
    quantified_step vs f guard s w p =
        let r = inner (L.negate f) s.next in
        (
          record {
            grows = p.grows;
            old_variables = λ i out. out;
            new_variables = λ i l out. out;
            below = λ b. record {
              formulas = All-imp (λ g h. Fits-le g s.next r.2 p.grows h) s.added b.formulas;
              variables = IdsBelow-le s.variables s.next r.2 p.grows b.variables;
            };
            sound = λ env h. (h, λ g. holds-quantified law closed vs f s.next w.2 r p env);
            complete = λ d b h. (
              d,
              record {
                agree = Agree-refl s.next d;
                only = record { same_truth = refl; same_value = λ i out. refl };
                satisfied = h;
              },
            );
          },
          quantified-Fits law closed vs f s.next w.2 r p w.0 w.1,
        )

    -- One round.
    process_with-Processed :
        (k : ℕ) (f : Formula Q) (n : ℕ)
        → nesting f ≤ k
        → ((g : Formula Q) (m : ℕ) → nesting g < k → Fits m g → Processed S g m (inner g m))
        → Fits n f
        → Processed S f n (process_with L B inner f n)
    unfolding process_with holds Fits
    process_with-Processed k f n h keeps w =
        let start : State Q = record { added = []; variables = []; next = n } in
        let (new_f, s) = visit_formula L B inner f top start in
        let (step, wn) =
          visit_formula_step ordered law closed operators regroups inner k
            (λ vs g guard s1 l wf. quantified_step vs g guard s1 wf (
              keeps (L.negate g) s1.next (omega (arith, nesting-negate g, l))
                (closed.negate-Fits s1.next g wf.2)))
            f top start h w tt in
        let collected = step.below (record { formulas = tt; variables = tt }) in
        record {
          grows = step.grows;
          fits =
              finish-Fits s.next f new_f s.added (Fits-le f n s.next step.grows w) wn
                collected.formulas;
          below = collected.variables;
          new = λ i l. step.new_variables i l refl;
          sound = λ env t.
              (let all = holds-finish env f new_f s.added in
                let here : satisfies S env s.added ≡ true = ground (arith) in
                let (_, kept) = step.sound env here in let same = kept refl in ground (arith));
          complete = λ d t.
              (let (e, x) = step.complete d (record { formulas = tt; variables = tt }) refl in
                let done = x.satisfied in
                let (_, kept) = step.sound e done in
                let same = kept refl in
                let still = holds-Agree S f n d e w x.agree in
                let all = holds-finish e f new_f s.added in (e, x.only, x.agree, ground (arith)));
        }

  process_fuel-Processed :
      (k : ℕ) (f : Formula Q) (n : ℕ)
      → nesting f < k
      → Fits n f
      → Processed S f n (process_fuel L B k f n)
  unfolding process_fuel
  process_fuel-Processed zero f n h w = absurd (omega (arith, h))
  process_fuel-Processed (suc k) f n h w =
      process_with-Processed (process_fuel L B k) k f n (omega arith)
        (λ g m l wg. process_fuel-Processed k g m l wg) w

  -- The result of `Process`.
  process-Processed : (f : Formula Q) (n : ℕ) → Fits n f → Processed S f n (process L B f n)
  unfolding process
  process-Processed f n w = process_fuel-Processed (suc (nesting f)) f n (omega arith) w

  -- A model of what `Process` makes of a formula, whose identifiers are below `n`, is a model of
  -- the formula; conditionals, in quantified formulas too, are replaced by variables from `n` on.
  -- The numbers are ordered and regroup, the operators mean what they say, and negation nests no
  -- quantifier deeper.
  pub process_sound :
      (f : Formula Q) (n : ℕ) (env : Env Q)
      → Fits n f
      → holds S env (process L B f n).0 ≡ true
      → holds S env f ≡ true
  process_sound f n env w h = (process-Processed f n w).sound env h

  -- A model of a formula, whose identifiers are below `n`, gives a model of what `Process` makes of
  -- it, by new numbers for the variables that `Process` adds and for nothing else; under the
  -- conditions of `process_sound`.
  pub process_complete :
      (f : Formula Q) (n : ℕ) (d : Env Q)
      → Fits n f
      → holds S d f ≡ true
      → (e : Env Q) × Only (process L B f n).1 d e
        × Agree n d e
        × (holds S e (process L B f n).0 ≡ true)
  process_complete f n d w h = (process-Processed f n w).complete d h

  -- The variables that `Process` adds have identifiers from `n` on and below the counter that it
  -- leaves, and its result has none at or above that counter; under the conditions of
  -- `process_sound`.
  pub process-new :
      (f : Formula Q) (n : ℕ)
      → Fits n f
      → Fits (process L B f n).2 (process L B f n).0
        × All (λ v. (n ≤ v.id) × (v.id < (process L B f n).2)) (process L B f n).1
  process-new f n w =
      let p = process-Processed f n w in
      (p.fits, All-new n (process L B f n).2 (process L B f n).1 p.new p.below)
