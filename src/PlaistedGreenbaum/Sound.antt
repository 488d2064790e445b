-- ===== src/PlaistedGreenbaum/Sound.antt =====
-- A model of the clauses is a model of the formula.
use dlinear.Base.{
  ℕ, true, not, ◌||◌, ◌≡◌, refl, sym, ◌∙◌, ap, List, [], All, All-snoc, arith, Bool-cases, inl, inr,
}
use dlinear.Symbolic.Syntax.{
  Variable, Variables, Formula, Formulas, bot, top, prop, eq, neq, gt, geq, lt, leq, conj, disj,
  neg, forall, nil, cons,
}
use dlinear.Symbolic.Meaning.{Structure, Env, holds, all_hold, some_holds, for_all}
use dlinear.Symbolic.Kinds.{get_clauses, have_intersection}
use dlinear.Symbolic.Fits.{Ascending, Fits, AllFit}
use dlinear.Symbolic.Library.{Library, IsSound, IsClosed, insert}
use dlinear.Nnfizer.{convert as nnf}
use dlinear.Nnfizer.Closed.{convert-Fits}
use dlinear.Symbolic.Quantifier.{
  for_all-imp, for_all-join, for_all-true, for_all-cong, for_all-guard,
}
use dlinear.Nnfizer.Laws.{some_holds-insert, holds-convert as holds-nnf}
use dlinear.PlaistedGreenbaum.{
  State, fresh, declare, emit, insert_all, guarded, emit_clauses, quantified, visit,
  visit_conjuncts, visit_disjuncts, convert,
}

-- Every formula of the list is true.
module _ {Q : Type 0} (S : Structure Q) where
  abbrev pub Satisfies : Env Q → List (Formula Q) → Type 0
  Satisfies env fs = All (λ f. holds S env f ≡ true) fs

  pub all_hold-get_clauses :
      (f : Formula Q) (env : Env Q) → all_hold S env (get_clauses f) ≡ holds S env f
  unfolding get_clauses holds
  all_hold-get_clauses f env = ground arith

module _ {Q : Type 0} where
  pub get_clauses-AllFit : (n : ℕ) (f : Formula Q) → Fits n f → AllFit n (get_clauses f)
  unfolding get_clauses Fits
  get_clauses-AllFit n (conj fs) h = h
  get_clauses-AllFit n f h = (h, tt)

module _ {Q : Type 0} {S : Structure Q} {L : Library Q} (law : IsSound S L) where
  pub some_holds-insert_all :
      (env : Env Q) (fs r : Formulas Q)
      → some_holds S env (insert_all L fs r) ≡ (some_holds S env r || some_holds S env fs)
  unfolding insert_all holds
  some_holds-insert_all env nil r = ground arith
  some_holds-insert_all env (cons f fs) r =
      some_holds-insert_all env fs (insert L f r) ∙ ground (arith, some_holds-insert law env f r)

  some_holds-negated :
      (env : Env Q) (b : Variable)
      → some_holds S env (cons (L.negate (prop b)) nil) ≡ not (env.truth b.id)
  unfolding holds
  some_holds-negated env b = ground (arith, law.holds-negate env (prop b))

  guarded_other :
      (env : Env Q) (b : Variable) (c : Formula Q)
      → holds S env (L.make_disjunction (insert L c (cons (L.negate (prop b)) nil)))
        ≡ (not (env.truth b.id) || holds S env c)
  guarded_other env b c =
      let start = cons (L.negate (prop b)) nil in
      law.holds-make_disjunction env (insert L c start)
      ∙ ground (arith, some_holds-insert law env c start, some_holds-negated env b)

  pub holds-guarded :
      (env : Env Q) (b : Variable) (c : Formula Q)
      → holds S env (guarded L b c) ≡ (not (env.truth b.id) || holds S env c)
  unfolding guarded
  holds-guarded env b (disj fs) =
      let start = cons (L.negate (prop b)) nil in
      law.holds-make_disjunction env (insert_all L fs start)
      ∙ unfold holds in ground (arith, some_holds-insert_all env fs start, some_holds-negated env b)
  holds-guarded env b c = guarded_other env b c

  pub holds-quantified :
      (env : Env Q) (b : Variable) (vs : Variables) (c : Formula Q) (n : ℕ)
      → Fits n c
      → Ascending vs
      → holds S env (quantified L b vs c)
        ≡ (not (env.truth b.id) || for_all S vs (λ e. holds S e c) env)
  unfolding holds
  holds-quantified env b vs c n w h =
      elim (Bool-cases (have_intersection (L.free_variables c) vs)) [
        | inl met ↦ rw met (
            law.holds-make_forall env vs (guarded L b c)
            ∙ (for_all-cong S vs _ _ env
                  (λ e same. holds-guarded e b c ∙ ap (λ t. not (t b.id) || holds S e c) same)
                ∙ for_all-guard S vs (env.truth b.id) (λ e. holds S e c) env))
        | inr apart ↦ rw apart (
            holds-guarded env b c
            ∙ ap (λ t. not (env.truth b.id) || t) (sym (law.holds-disjoint env vs c n w h apart)))
      ]

  emit_clauses_sound :
      (env : Env Q) (b : Variable) (vs : Variables) (cs : Formulas Q) (s : State Q) (n : ℕ)
      → AllFit n cs
      → Ascending vs
      → Satisfies S env (emit_clauses L b vs cs s).aux
      → (env.truth b.id ≡ true → for_all S vs (λ e. all_hold S e cs) env ≡ true)
        × Satisfies S env s.aux
  unfolding emit_clauses holds Fits
  emit_clauses_sound env b vs nil s n w asc h = ((λ _. for_all-true S vs _ env (λ e. refl)), h)
  emit_clauses_sound env b vs (cons c cs) s n w asc h =
      let (rest, before) =
        emit_clauses_sound env b vs cs (emit (quantified L b vs c) s) n w.1 asc h in
      let (old, new) = All-snoc _ s.aux (quantified L b vs c) before in
      (
        (λ t.
            for_all-join S vs (λ e. holds S e c) (λ e. all_hold S e cs) _ env
              (λ e same p q. ground arith) (ground (arith, holds-quantified env b vs c n w.0 asc))
              (rest t)),
        old,
      )

module _ {Q : Type 0} {S : Structure Q} {L : Library Q} (law : IsSound S L)
    (naive : Formula Q → Formula Q)
    (holds-naive : (env : Env Q) (f : Formula Q) → holds S env (naive f) ≡ holds S env f)
    (naive-Fits : (n : ℕ) (f : Formula Q) → Fits n f → Fits n (naive f)) (n : ℕ) (env : Env Q) where
  mutual
    unfolding visit holds Fits

    -- Where the clauses hold, what stands for a subformula implies it.
    pub visit_sound :
        (f : Formula Q) (s : State Q)
        → Fits n f
        → Satisfies S env (visit L naive f s).1.aux
        → (holds S env (visit L naive f s).0 ≡ true → holds S env f ≡ true) × Satisfies S env s.aux
    visit_sound bot s w h = ((λ p. p), h)
    visit_sound top s w h = ((λ p. p), h)
    visit_sound (prop v) s w h = ((λ p. p), h)
    visit_sound (eq d e) s w h = ((λ p. p), h)
    visit_sound (neq d e) s w h = ((λ p. p), h)
    visit_sound (gt d e) s w h = ((λ p. p), h)
    visit_sound (geq d e) s w h = ((λ p. p), h)
    visit_sound (lt d e) s w h = ((λ p. p), h)
    visit_sound (leq d e) s w h = ((λ p. p), h)
    visit_sound (conj fs) s w h = visit_conjuncts_sound fs (fresh s.next) (declare s) w h
    visit_sound (disj fs) s w h =
        let b = fresh s.next in
        let (clause, s') = visit_disjuncts L naive fs nil (declare s) in
        let goal = L.make_disjunction (insert L (L.negate (prop b)) clause) in
        let (old, new) = All-snoc (λ f. holds S env f ≡ true) s'.aux goal h in
        let (rest, before) = visit_disjuncts_sound fs nil (declare s) w old in
        (
          (λ t. rest (
              ground (
                arith,
                law.holds-make_disjunction env (insert L (L.negate (prop b)) clause),
                some_holds-insert law env (L.negate (prop b)) clause,
                law.holds-negate env (prop b),
              ))),
          before,
        )
    visit_sound (neg f) s w h = ((λ p. p), h)
    visit_sound (forall vs f) s w h =
        let (rest, before) =
          emit_clauses_sound law env (fresh s.next) vs (get_clauses (naive f)) (declare s) n
            (get_clauses-AllFit n (naive f) (naive-Fits n f w.2)) w.1 h in
        (
          (λ t.
              for_all-imp S vs _ _ env
                (λ e _ p. sym (holds-naive e f) ∙ (sym (all_hold-get_clauses S (naive f) e) ∙ p))
                (rest t)),
          before,
        )

    visit_conjuncts_sound :
        (fs : Formulas Q) (b : Variable) (s : State Q)
        → AllFit n fs
        → Satisfies S env (visit_conjuncts L naive fs b s).aux
        → (env.truth b.id ≡ true → all_hold S env fs ≡ true) × Satisfies S env s.aux
    visit_conjuncts_sound nil b s w h = ((λ _. refl), h)
    visit_conjuncts_sound (cons f fs) b s w h =
        let (g, s') = visit L naive f s in
        let clause = L.either (L.negate (prop b)) g in
        let (rest, now) = visit_conjuncts_sound fs b (emit clause s') w.1 h in
        let (old, new) = All-snoc (λ f. holds S env f ≡ true) s'.aux clause now in
        let (first, before) = visit_sound f s w.0 old in
        (
          (λ t. ground (
            arith,
            rest t,
            first,
            law.holds-either env (L.negate (prop b)) g,
            law.holds-negate env (prop b),
          )),
          before,
        )

    visit_disjuncts_sound :
        (fs clause : Formulas Q) (s : State Q)
        → AllFit n fs
        → Satisfies S env (visit_disjuncts L naive fs clause s).1.aux
        → (some_holds S env (visit_disjuncts L naive fs clause s).0 ≡ true
            → (some_holds S env clause || some_holds S env fs) ≡ true)
          × Satisfies S env s.aux
    visit_disjuncts_sound nil clause s w h = ((λ p. ground arith), h)
    visit_disjuncts_sound (cons f fs) clause s w h =
        let (g, s') = visit L naive f s in
        let (rest, now) = visit_disjuncts_sound fs (insert L g clause) s' w.1 h in
        let (first, before) = visit_sound f s w.0 now in
        ((λ t. ground (arith, rest t, first, some_holds-insert law env g clause)), before)

  -- Where the clauses that `convert` collects for a formula whose identifiers are below `n` all
  -- hold, the formula holds; the naive conversion inside quantifiers is any that keeps the meaning
  -- and the identifiers.
  pub convert_sound :
      IsClosed L
      → (f : Formula Q) → Fits n f
      → Satisfies S env (convert L naive f n).aux
      → holds S env f ≡ true
  unfolding convert
  convert_sound closed f w h =
      let (head, s) = visit L naive (nnf L f true) (record { aux = []; vars = []; next = n }) in
      let (old, new) = All-snoc (λ f. holds S env f ≡ true) s.aux head h in
      let (implied, _) = visit_sound (nnf L f true) _ (convert-Fits closed n f true w) old in
      sym (holds-nnf law env f true) ∙ implied new
