-- ===== src/TseitinCnfizer/Clauses.antt =====
-- What the clauses of a definition say.
use dlinear.Base.{
  Bool, true, false, not, ◌&&◌, ◌||◌, ◌≡◌, ◌∙◌, some, List, [], ◌∷◌, ◌++◌, if◌then◌else◌, ◌==◌,
  Bool-cases, Option-cases, inl, inr, arith,
}
use dlinear.Symbolic.Syntax.{Variable, Formula, Formulas, top, prop, conj, disj, neg, nil, cons}
use dlinear.Symbolic.Satisfy.{satisfies, satisfies-snoc}
use dlinear.Symbolic.Meaning.{Structure, Env, holds, all_hold, some_holds}
use dlinear.Symbolic.Library.{Library, IsSound, insert, imply}
use dlinear.Nnfizer.Laws.{all_hold-insert, some_holds-insert}
use dlinear.TseitinCnfizer.{
  add, push_all, negate_all, add_iff, add_conjuncts, add_disjuncts, cnfize_conjunction,
  cnfize_disjunction, cnfize, push_head, collect,
}

module _ {Q : Type 0} (S : Structure Q) where
  abbrev pub iff_bool : Bool → Bool → Bool
  iff_bool true b = b
  iff_bool false b = not b

  -- What the entries of the map say: the head's definition is true, and every other variable is as
  -- true as its definition.
  abbrev pub defined : Env Q → Variable → List (Variable × Formula Q) → Bool
  defined env head [] = true
  defined env head ((b, f) ∷ m) =
      (if head.id == b.id then holds S env f else iff_bool (env.truth b.id) (holds S env f))
      && defined env head m

  satisfies-add :
      (env : Env Q) (f : Formula Q) (cs : List (Formula Q))
      → satisfies S env (add f cs) ≡ (satisfies S env cs && holds S env f)
  unfolding add holds
  satisfies-add env top cs = ground arith
  satisfies-add env f cs = satisfies-snoc S env cs f

  satisfies-push_all :
      (env : Env Q) (fs : Formulas Q) (cs : List (Formula Q))
      → satisfies S env (push_all fs cs) ≡ (satisfies S env cs && all_hold S env fs)
  unfolding push_all holds
  satisfies-push_all env nil cs = ground arith
  satisfies-push_all env (cons f fs) cs =
      satisfies-push_all env fs (cs ++ f ∷ []) ∙ ground (arith, satisfies-snoc S env cs f)

module _ {Q : Type 0} {S : Structure Q} {L : Library Q} (law : IsSound S L) (env : Env Q) where
  some_holds-negate_all :
      (fs r : Formulas Q)
      → some_holds S env (negate_all L fs r) ≡ (some_holds S env r || not (all_hold S env fs))
  unfolding negate_all holds
  some_holds-negate_all nil r = ground arith
  some_holds-negate_all (cons f fs) r =
      some_holds-negate_all fs (insert L (L.negate f) r)
      ∙ ground (arith, some_holds-insert law env (L.negate f) r, law.holds-negate env f)

  all_hold-negate_all :
      (fs r : Formulas Q)
      → all_hold S env (negate_all L fs r) ≡ (all_hold S env r && not (some_holds S env fs))
  unfolding negate_all holds
  all_hold-negate_all nil r = ground arith
  all_hold-negate_all (cons f fs) r =
      all_hold-negate_all fs (insert L (L.negate f) r)
      ∙ ground (arith, all_hold-insert law env (L.negate f) r, law.holds-negate env f)

  satisfies-add_conjuncts :
      (b : Variable) (fs : Formulas Q) (cs : List (Formula Q))
      → satisfies S env (add_conjuncts L b fs cs)
        ≡ (satisfies S env cs && (not (env.truth b.id) || all_hold S env fs))
  unfolding add_conjuncts holds
  satisfies-add_conjuncts b nil cs = ground arith
  satisfies-add_conjuncts b (cons f fs) cs =
      let clause = L.either (L.negate (prop b)) f in
      satisfies-add_conjuncts b fs (add clause cs)
      ∙ ground (
        arith,
        satisfies-add S env clause cs,
        law.holds-either env (L.negate (prop b)) f,
        law.holds-negate env (prop b),
      )

  satisfies-add_disjuncts :
      (b : Variable) (fs : Formulas Q) (cs : List (Formula Q))
      → satisfies S env (add_disjuncts L b fs cs)
        ≡ (satisfies S env cs && (env.truth b.id || all_hold S env fs))
  unfolding add_disjuncts holds
  satisfies-add_disjuncts b nil cs = ground arith
  satisfies-add_disjuncts b (cons f fs) cs =
      let clause = L.either f (prop b) in
      satisfies-add_disjuncts b fs (add clause cs)
      ∙ ground (arith, satisfies-add S env clause cs, law.holds-either env f (prop b))

  satisfies-cnfize_conjunction :
      (b : Variable) (fs : Formulas Q) (cs : List (Formula Q))
      → satisfies S env (cnfize_conjunction L b fs cs)
        ≡ (satisfies S env cs && iff_bool S (env.truth b.id) (all_hold S env fs))
  unfolding cnfize_conjunction holds
  satisfies-cnfize_conjunction b fs cs =
      let negated = L.make_disjunction (negate_all L fs nil) in
      ground (
        arith,
        satisfies-add S env (L.either negated (prop b)) (add_conjuncts L b fs cs),
        satisfies-add_conjuncts b fs cs,
        law.holds-either env negated (prop b),
        law.holds-make_disjunction env (negate_all L fs nil),
        some_holds-negate_all fs nil,
      )

  satisfies-cnfize_disjunction :
      (b : Variable) (fs : Formulas Q) (cs : List (Formula Q))
      → satisfies S env (cnfize_disjunction L b fs cs)
        ≡ (satisfies S env cs && iff_bool S (env.truth b.id) (some_holds S env fs))
  unfolding cnfize_disjunction holds
  satisfies-cnfize_disjunction b fs cs =
      let clause = L.either (L.negate (prop b)) (disj fs) in
      ground (
        arith,
        satisfies-add_disjuncts b (negate_all L fs nil) (add clause cs),
        satisfies-add S env clause cs,
        law.holds-either env (L.negate (prop b)) (disj fs),
        law.holds-negate env (prop b),
        all_hold-negate_all fs nil,
      )

  satisfies-add_iff :
      (f g : Formula Q) (cs : List (Formula Q))
      → satisfies S env (add_iff L f g cs)
        ≡ (satisfies S env cs && iff_bool S (holds S env f) (holds S env g))
  unfolding add_iff imply
  satisfies-add_iff f g cs =
      let there = L.either (L.negate f) g in
      let back = L.either (L.negate g) f in
      ground (
        arith,
        satisfies-add S env back (add there cs),
        satisfies-add S env there cs,
        law.holds-either env (L.negate f) g,
        law.holds-either env (L.negate g) f,
        law.holds-negate env f,
        law.holds-negate env g,
      )

  satisfies-cnfize :
      (b : Variable) (f : Formula Q) (cs cs' : List (Formula Q))
      → cnfize L b f cs ≡ some cs'
      → satisfies S env cs' ≡ (satisfies S env cs && iff_bool S (env.truth b.id) (holds S env f))
  unfolding cnfize holds
  satisfies-cnfize b (conj fs) cs cs' h = ground (arith, satisfies-cnfize_conjunction b fs cs)
  satisfies-cnfize b (disj fs) cs cs' h = ground (arith, satisfies-cnfize_disjunction b fs cs)
  satisfies-cnfize b (neg f) cs cs' h = ground (arith, satisfies-add_iff (prop b) (neg f) cs)
  satisfies-cnfize b f cs cs' h = ground (arith)

  satisfies-push_head :
      (f : Formula Q) (cs : List (Formula Q))
      → satisfies S env (push_head L f cs) ≡ (satisfies S env cs && holds S env f)
  unfolding push_head holds
  satisfies-push_head (conj fs) cs = satisfies-push_all S env fs cs
  satisfies-push_head f cs = satisfies-snoc S env cs f

  -- The clauses of the map are true just where the entries say what they define.
  pub satisfies-collect :
      (head : Variable) (m : List (Variable × Formula Q)) (cs cs' : List (Formula Q))
      → collect L head m cs ≡ some cs'
      → satisfies S env cs' ≡ (satisfies S env cs && defined S env head m)
  unfolding collect
  satisfies-collect head [] cs cs' h = ground (arith)
  satisfies-collect head ((b, f) ∷ m) cs cs' h = elim (Bool-cases (head.id == b.id)) [
    | inl same ↦
        satisfies-collect head m (push_head L f cs) cs' (ground (arith))
        ∙ ground (arith, satisfies-push_head f cs)
    | inr other ↦ elim (Option-cases (cnfize L b f cs)) [
      | inl e ↦ ground (arith)
      | inr (cs1, e) ↦
          satisfies-collect head m cs1 cs' (ground (arith))
          ∙ ground (arith, satisfies-cnfize b f cs cs1 e)
    ]
  ]
