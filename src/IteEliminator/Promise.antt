-- ===== src/IteEliminator/Promise.antt =====
-- What is promised of a visit, and how promises combine.
use dlinear.Base.{ℕ, ◌≤◌, ◌≡◌, refl, sym, ◌∙◌, Bool-cases, inl, inr}
use dlinear.Symbolic.Syntax.{
  Variables, Binary, division, power, atan2, min, max as maximum, Expression, Formula,
}
use dlinear.Symbolic.Meaning.{Structure, IsOrdered, Env, value_of, holds}
use dlinear.Symbolic.Fits.{ExpressionFits, Fits}
use dlinear.Symbolic.Weaken.{ExpressionFits-le}
use dlinear.Symbolic.Library.{Library, IsSound, IsClosed}
use dlinear.IteEliminator.{Operators, State, keep, apply}
use dlinear.IteEliminator.Meanings.{IsOperators, Regroups}
use dlinear.IteEliminator.Steps.{Step, stay, chain, meaning, ValueKept, TruthKept}

module _ {Q : Type 0} {S : Structure Q} {L : Library Q} {B : Operators Q} (ordered : IsOrdered S)
    (law : IsSound S L) (closed : IsClosed L) (operators : IsOperators S B) (regroups : Regroups S)
    (inner : Formula Q → ℕ → Formula Q × Variables × ℕ) where
  -- What is promised of a visit.
  abbrev pub Visited : Expression Q → Formula Q → State Q → Expression Q × State Q → Type 0
  Visited e guard s r = Step S s r.1 (ValueKept S guard r.0 e) × ExpressionFits r.1.next r.0

  abbrev pub FormulaVisited : Formula Q → Formula Q → State Q → Formula Q × State Q → Type 0
  FormulaVisited f guard s r = Step S s r.1 (TruthKept S guard r.0 f) × Fits r.1.next r.0

  pub unchanged :
      (e : Expression Q) (guard : Formula Q) (s : State Q)
      → ExpressionFits s.next e
      → Visited e guard s (e, s)
  unchanged e guard s w = (stay S s _ (λ env g. refl), w)

  pub unchanged_formula :
      (f guard : Formula Q) (s : State Q) → Fits s.next f → FormulaVisited f guard s (f, s)
  unchanged_formula f guard s w = (stay S s _ (λ env g. refl), w)

  pub kept :
      (e : Expression Q) (guard : Formula Q) (s : State Q) (r : Expression Q × State Q)
      → ExpressionFits s.next e
      → Visited e guard s r
      → Visited e guard s (keep L B e s r)
  kept e guard s r w v = elim (Bool-cases (B.include_ite e)) [
    | inl there ↦ rw there v
    | inr plain ↦ rw plain (unchanged e guard s w)
  ]

  pub value_of-apply :
      (env : Env Q) (op : Binary) (d e : Expression Q)
      → value_of S env (apply L B op d e) ≡ S.apply_binary op (value_of S env d) (value_of S env e)
  value_of-apply env power d e =
      operators.value_of-pow env d e
      ∙ sym (regroups.power_pow (value_of S env d) (value_of S env e))
  value_of-apply env division d e = operators.value_of-make_binary env division d e
  value_of-apply env atan2 d e = operators.value_of-make_binary env atan2 d e
  value_of-apply env min d e = operators.value_of-make_binary env min d e
  value_of-apply env maximum d e = operators.value_of-make_binary env maximum d e

  pub apply-Fits :
      (n : ℕ) (op : Binary) (d e : Expression Q)
      → ExpressionFits n d
      → ExpressionFits n e
      → ExpressionFits n (apply L B op d e)
  apply-Fits n power d e hd he = operators.pow-Fits n d e hd he
  apply-Fits n division d e hd he = operators.make_binary-Fits n division d e hd he
  apply-Fits n atan2 d e hd he = operators.make_binary-Fits n atan2 d e hd he
  apply-Fits n min d e hd he = operators.make_binary-Fits n min d e hd he
  apply-Fits n maximum d e hd he = operators.make_binary-Fits n maximum d e hd he

  -- Two visits, the second of which goes on from the first.
  pub two :
      (d e : Expression Q) (guard : Formula Q) (s : State Q) (r1 r2 : Expression Q × State Q)
      → Visited d guard s r1
      → (s.next ≤ r1.1.next → Visited e guard r1.1 r2)
      → Step S s r1.1 (ValueKept S guard r1.0 d)
        × Step S r1.1 r2.1 (ValueKept S guard r2.0 e)
        × ExpressionFits r2.1.next r1.0
        × ExpressionFits r2.1.next r2.0
  two d e guard s r1 r2 (a, wd) second =
      let (b, we) = second (a.grows) in
      (a, b, ExpressionFits-le r1.0 r1.1.next r2.1.next (b.grows) wd, we)

  -- A comparison of two expressions that were visited.
  pub compared :
      (f guard : Formula Q) (s s1 s2 : State Q) (d e d1 e1 : Expression Q) (r : Formula Q)
      → Step S s s1 (ValueKept S guard d1 d)
      → Step S s1 s2 (ValueKept S guard e1 e)
      → ((env : Env Q)
          → value_of S env d1 ≡ value_of S env d
          → value_of S env e1 ≡ value_of S env e
          → holds S env r ≡ holds S env f)
      → Fits s2.next r
      → FormulaVisited f guard s (r, s2)
  compared f guard s s1 s2 d e d1 e1 r a b same w =
      (meaning S s s2 _ _ (λ env (p, q) g. same env (p g) (q g)) (chain S s s1 s2 _ _ a b), w)
