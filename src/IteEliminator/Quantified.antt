-- ===== src/IteEliminator/Quantified.antt =====
-- A quantified formula: what is eliminated from its negation is negated again, and the new
-- variables join the quantifier.
use dlinear.Base.{
  ℕ, ◌≤◌, ◌<◌, Bool, true, false, not, ◌≡◌, refl, sym, ◌∙◌, if◌then◌else◌, Bool-cases, inl, inr,
  arith,
}
use dlinear.Symbolic.Syntax.{Variables, Formula, forall}
use dlinear.Symbolic.Meaning.{Structure, Env, holds, for_all}
use dlinear.Symbolic.Fits.{Ascending, IdsBelow, Fits, Agree, holds-Agree}
use dlinear.Symbolic.Weaken.{IdsBelow-le}
use dlinear.Symbolic.Library.{Library, IsSound, IsClosed}
use dlinear.Nnfizer.{convert as nnf}
use dlinear.Nnfizer.Laws.{holds-convert as holds-nnf}
use dlinear.Nnfizer.Closed.{convert-Fits}
use dlinear.IteEliminator.{insert_variables}
use dlinear.Symbolic.Ids.{in_ids}
use dlinear.IteEliminator.Steps.{Only}
use dlinear.IteEliminator.Sets.{
  in_ids-insert_variables, insert_variables-Ascending, insert_variables-IdsBelow, for_all-Only,
  for_all-from,
}

-- What the elimination promises: its result holds at the environments of the formula, up to the
-- values of the new variables.
pub record Processed {Q : Type 0} (S : Structure Q) (f : Formula Q) (n : ℕ)
    (r : Formula Q × Variables × ℕ) : Type 0 where
  pub grows : n ≤ r.2
  pub fits : Fits r.2 r.0
  pub below : IdsBelow r.2 r.1
  pub new : (i : ℕ) → i < n → in_ids i r.1 ≡ false
  pub sound : (env : Env Q) → holds S env r.0 ≡ true → holds S env f ≡ true
  pub complete :
      (d : Env Q)
      → holds S d f ≡ true
      → (e : Env Q) × Only r.1 d e × Agree n d e × (holds S e r.0 ≡ true)

module _ {Q : Type 0} {S : Structure Q} {L : Library Q} (law : IsSound S L) (closed : IsClosed L)
    (vs : Variables) (f : Formula Q) (n : ℕ) (w : Fits n f) (r : Formula Q × Variables × ℕ)
    (processed : Processed S (L.negate f) n r) where
  -- What stands under the quantifier.
  abbrev matrix : Formula Q
  matrix = nnf L (L.negate r.0) false

  holds-matrix : (env : Env Q) → holds S env matrix ≡ not (holds S env r.0)
  holds-matrix env = holds-nnf law env (L.negate r.0) false ∙ law.holds-negate env r.0

  -- The quantified formula at an environment, from the longer quantifier.
  forward :
      (env : Env Q)
      → for_all S (insert_variables r.1 vs) (λ e. holds S e matrix) env ≡ true
      → for_all S vs (λ e. holds S e f) env ≡ true
  forward env h =
      for_all-from S vs (λ e. holds S e f) env
        (λ e only. elim (Bool-cases (holds S e f)) [
          | inl p ↦ p
          | inr p ↦
              let refuted : holds S e (L.negate f) ≡ true = ground (arith, law.holds-negate e f) in
              let (e', only', agree, now) = processed.complete e refuted in
              let further : Only (insert_variables r.1 vs) env e' = record {
                same_truth = only.same_truth ∙ only'.same_truth;
                same_value = λ i out.
                    (let apart = in_ids-insert_variables i r.1 vs in
                      only.same_value i (ground (arith)) ∙ only'.same_value i (ground (arith)));
              } in
              let m =
                for_all-Only S (insert_variables r.1 vs) (λ e. holds S e matrix) env e' further h in
              ground (arith, holds-matrix e')
        ])

  -- The environment with the new variables as they were.
  abbrev restored : Env Q → Env Q → Env Q
  restored env e = record e { value = λ i. if in_ids i vs then e.value i else env.value i }

  backward :
      (env : Env Q)
      → for_all S vs (λ e. holds S e f) env ≡ true
      → for_all S (insert_variables r.1 vs) (λ e. holds S e matrix) env ≡ true
  backward env h =
      for_all-from S (insert_variables r.1 vs) (λ e. holds S e matrix) env
        (λ e only.
          let back = restored env e in
          let only_vs : Only vs env back = record {
            same_truth = only.same_truth;
            same_value = λ i out. ground (arith);
          } in
          let agree : Agree n back e = record {
            on_truth = λ i l. refl;
            on_value = λ i l. elim (Bool-cases (in_ids i vs)) [
              | inl bound ↦ ground (arith)
              | inr free ↦
                  let apart = in_ids-insert_variables i r.1 vs in
                  let fresh_not = processed.new i l in
                  let same = only.same_value i (ground (arith)) in ground (arith)
            ];
          } in
          let there = for_all-Only S vs (λ e. holds S e f) env back only_vs h in
          let here : holds S e f ≡ true = sym (holds-Agree S f n back e w agree) ∙ there in
          elim (Bool-cases (holds S e r.0)) [
            | inr p ↦ ground (arith, holds-matrix e)
            | inl p ↦ let refuted = processed.sound e p in ground (arith, law.holds-negate e f)
          ])

  bool_iff : (a b : Bool) → (a ≡ true → b ≡ true) → (b ≡ true → a ≡ true) → a ≡ b
  bool_iff a b p q = ground (arith, p, q)

  pub holds-quantified :
      (env : Env Q)
      → holds S env (L.make_forall (insert_variables r.1 vs) matrix) ≡ holds S env (forall vs f)
  unfolding holds
  holds-quantified env =
      law.holds-make_forall env (insert_variables r.1 vs) matrix
      ∙ bool_iff _ _ (forward env) (backward env)

  pub quantified-Fits :
      IdsBelow n vs → Ascending vs → Fits r.2 (L.make_forall (insert_variables r.1 vs) matrix)
  quantified-Fits hv asc =
      closed.make_forall-Fits r.2 (insert_variables r.1 vs) matrix
        (insert_variables-IdsBelow r.2 r.1 vs processed.below
          (IdsBelow-le vs n r.2 processed.grows hv))
        (insert_variables-Ascending r.1 vs asc)
        (convert-Fits closed r.2 (L.negate r.0) false (closed.negate-Fits r.2 r.0 processed.fits))
