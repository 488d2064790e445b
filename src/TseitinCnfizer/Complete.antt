-- ===== src/TseitinCnfizer/Complete.antt =====
-- A model of the formula gives a model of the clauses.
use dlinear.Base.{
  ℕ, ◌+◌, true, not, ◌&&◌, ◌||◌, ◌≡◌, refl, sym, ◌∙◌, ap, some, List, [], ◌∷◌, ◌==◌, Bool-cases,
  inl, inr, arith,
}
use dlinear.Symbolic.Syntax.{
  Variable, Formula, Formulas, bot, top, prop, eq, neq, gt, geq, lt, leq, conj, disj, neg, forall,
  nil, cons,
}
use dlinear.Symbolic.Meaning.{Structure, Env, holds, all_hold, some_holds, for_all}
use dlinear.Symbolic.Kinds.{get_clauses, is_atomic}
use dlinear.Symbolic.Fits.{Fits, AllFit, Agree, holds-Agree, all_hold-Agree, some_holds-Agree}
use dlinear.Symbolic.Weaken.{Fits-le, AllFit-le}
use dlinear.Symbolic.Library.{Library, IsSound, IsClosed, insert}
use dlinear.Nnfizer.Laws.{all_hold-insert, some_holds-insert}
use dlinear.Nnfizer.Closed.{insert-AllFit}
use dlinear.PlaistedGreenbaum.Sound.{get_clauses-AllFit}
use dlinear.PlaistedGreenbaum.Fresh.{Agree-trans, define, Agree-define, define_self}
use dlinear.TseitinCnfizer.{
  State, fresh, record_definition, quantify_all, visit, visit_all, clauses_of, convert,
}
use dlinear.Symbolic.Satisfy.{satisfies}
use dlinear.TseitinCnfizer.Clauses.{defined, satisfies-collect}
use dlinear.TseitinCnfizer.Sound.{all_hold-quantified}
use dlinear.TseitinCnfizer.Keys.{NoKey, visit-NoKey, consistent}
use dlinear.TseitinCnfizer.Model.{
  MapFits-IsBelow, Extends-refl, IsModel-next, IsModel-entry, Extends-trans, IsModel, Extends,
}
use dlinear.TseitinCnfizer.Completed.{
  Completed, unchanged, defined_last, Completed-trans, quantify_all-AllFit, visit_forall_complete,
}

module _ {Q : Type 0} {S : Structure Q} {L : Library Q} (law : IsSound S L) (closed : IsClosed L)
    (naive : Formula Q → Formula Q)
    (holds-naive : (env : Env Q) (f : Formula Q) → holds S env (naive f) ≡ holds S env f)
    (naive-Fits : (n : ℕ) (f : Formula Q) → Fits n f → Fits n (naive f)) where
  -- A negation, after its operand is visited with its variable set apart.
  negated_complete :
      (f : Formula Q) (s : State Q) (d : Env Q)
      → Fits s.next f
      → IsModel S s d
      → (r : Formula Q × State Q) → NoKey s.next r.1.map
      → let c = define s.next (not (holds S d f)) d in
        Completed law closed naive holds-naive naive-Fits
          (record s { next = s.next + 1 })
          c
          r
          (holds S c f)
        → Completed law closed naive holds-naive naive-Fits s d
            (prop (fresh s.next), record_definition L (fresh s.next) (L.negate r.0) r.1)
            (not (holds S d f))
  unfolding Completed holds Fits
  negated_complete f s d w m r far (e, x, wg, same) =
      let t = not (holds S d f) in
      let c = define s.next t d in
      let a = Agree-define s.next t d in
      let grown = x.grows in
      let now : e.truth s.next ≡ t =
        sym (x.agree.on_truth s.next (omega arith)) ∙ define_self s.next t d in
      let meaning : holds S e (L.negate r.0) ≡ t =
        law.holds-negate e r.0 ∙ ap not (same ∙ sym (holds-Agree S f s.next d c w a)) in
      (
        e,
        record {
          agree = Agree-trans s.next (s.next + 1) d c e (omega arith) a x.agree;
          grows = omega arith;
          model =
              IsModel-entry S r.1 e (fresh s.next) (L.negate r.0) far (omega arith)
                (closed.negate-Fits r.1.next r.0 wg) (now ∙ sym meaning) x.model;
        },
        omega arith,
        now,
      )

  mutual
    unfolding visit holds Fits Completed

    visit_complete :
        (f : Formula Q) (s : State Q) (d : Env Q)
        → Fits s.next f
        → IsModel S s d
        → Completed law closed naive holds-naive naive-Fits s d (visit L naive f s) (holds S d f)
    visit_complete bot s d w m = unchanged law closed naive holds-naive naive-Fits bot s d w m
    visit_complete top s d w m = unchanged law closed naive holds-naive naive-Fits top s d w m
    visit_complete (prop v) s d w m =
        unchanged law closed naive holds-naive naive-Fits (prop v) s d w m
    visit_complete (eq x y) s d w m =
        unchanged law closed naive holds-naive naive-Fits (eq x y) s d w m
    visit_complete (neq x y) s d w m =
        unchanged law closed naive holds-naive naive-Fits (neq x y) s d w m
    visit_complete (gt x y) s d w m =
        unchanged law closed naive holds-naive naive-Fits (gt x y) s d w m
    visit_complete (geq x y) s d w m =
        unchanged law closed naive holds-naive naive-Fits (geq x y) s d w m
    visit_complete (lt x y) s d w m =
        unchanged law closed naive holds-naive naive-Fits (lt x y) s d w m
    visit_complete (leq x y) s d w m =
        unchanged law closed naive holds-naive naive-Fits (leq x y) s d w m
    visit_complete (conj fs) s d w m =
        let (ops, s') = visit_all L naive fs nil s in
        let (e, x, wo, every, any) = visit_all_complete fs nil s d w tt m in
        Completed-trans law closed naive holds-naive naive-Fits s s' d e (visit L naive (conj fs) s)
          _ x
          (defined_last law closed naive holds-naive naive-Fits s' e (L.make_conjunction ops)
            (all_hold S d fs) (closed.make_conjunction-Fits s'.next ops wo)
            (law.holds-make_conjunction e ops ∙ every) x.model)
    visit_complete (disj fs) s d w m =
        let (ops, s') = visit_all L naive fs nil s in
        let (e, x, wo, every, any) = visit_all_complete fs nil s d w tt m in
        Completed-trans law closed naive holds-naive naive-Fits s s' d e (visit L naive (disj fs) s)
          _ x
          (defined_last law closed naive holds-naive naive-Fits s' e (L.make_disjunction ops)
            (some_holds S d fs) (closed.make_disjunction-Fits s'.next ops wo)
            (law.holds-make_disjunction e ops ∙ any) x.model)
    visit_complete (neg f) s d w m = elim (Bool-cases (is_atomic f)) [
      | inl atom ↦ rw atom (unchanged law closed naive holds-naive naive-Fits (neg f) s d w m)
      | inr deep ↦
          let s1 : State Q = record s { next = s.next + 1 } in
          let t = not (holds S d f) in
          let c = define s.next t d in
          let done =
            visit_complete f s1 c (Fits-le f s.next (s.next + 1) (omega arith) w)
              (IsModel-next S s d t m) in
          rw deep (
            negated_complete f s d w m (visit L naive f s1)
              (visit-NoKey L naive f s (MapFits-IsBelow s m.fits)) done)
    ]
    visit_complete (forall vs f) s d w m =
        let cs = get_clauses (naive f) in
        visit_forall_complete law closed naive holds-naive naive-Fits (quantify_all L vs cs nil) s d
          (for_all S vs (λ e. holds S e f) d)
          (quantify_all-AllFit law closed naive holds-naive naive-Fits s.next vs cs nil w.0 w.1
            (get_clauses-AllFit s.next (naive f) (naive-Fits s.next f w.2)) tt)
          (all_hold-quantified law naive holds-naive naive-Fits s.next d vs f w.1 w.2) m

    visit_all_complete :
        (fs r : Formulas Q) (s : State Q) (d : Env Q)
        → AllFit s.next fs
        → AllFit s.next r
        → IsModel S s d
        → (e : Env Q) × Extends S s (visit_all L naive fs r s).1 d e
          × AllFit (visit_all L naive fs r s).1.next (visit_all L naive fs r s).0
          × (all_hold S e (visit_all L naive fs r s).0 ≡ (all_hold S d r && all_hold S d fs))
          × (some_holds S e (visit_all L naive fs r s).0 ≡ (some_holds S d r || some_holds S d fs))
    visit_all_complete nil r s d w wr m = (d, Extends-refl S s d m, wr, ground arith, ground arith)
    visit_all_complete (cons f fs) r s d w wr m =
        let (g, s') = visit L naive f s in
        let (e, x, wg, same) = visit_complete f s d w.0 m in
        let grown = x.grows in
        let (e', x', wo, every, any) =
          visit_all_complete fs (insert L g r) s' e (AllFit-le fs s.next s'.next grown w.1)
            (insert-AllFit L s'.next g r wg (AllFit-le r s.next s'.next grown wr)) x.model in
        (
          e',
          Extends-trans S s s' _ d e e' x x',
          wo,
          every
              ∙ ground (
                arith,
                same,
                all_hold-insert law e g r,
                all_hold-Agree S fs s.next d e w.1 x.agree,
                all_hold-Agree S r s.next d e wr x.agree,
              ),
          any
              ∙ ground (
                arith,
                same,
                some_holds-insert law e g r,
                some_holds-Agree S fs s.next d e w.1 x.agree,
                some_holds-Agree S r s.next d e wr x.agree,
              ),
        )

  defined-consistent :
      (e : Env Q) (v : Variable) (m : List (Variable × Formula Q))
      → consistent S e m ≡ true
      → e.truth v.id ≡ true
      → defined S e v m ≡ true
  defined-consistent e v [] h t = refl
  defined-consistent e v ((b, f) ∷ m) h t = elim (Bool-cases (v.id == b.id)) [
    | inl same ↦
        let here : v.id ≡ b.id = ground (arith) in
        let also : e.truth b.id ≡ true = sym (ap e.truth here) ∙ t in
        let rest : consistent S e m ≡ true = ground (arith) in
        ground (arith, defined-consistent e v m rest t)
    | inr other ↦
        let rest : consistent S e m ≡ true = ground (arith) in
        ground (arith, defined-consistent e v m rest t)
  ]

  clauses_of-satisfied :
      (e : Env Q) (head : Formula Q) (m : List (Variable × Formula Q)) (clauses : List (Formula Q))
      → clauses_of L naive head m ≡ some clauses
      → consistent S e m ≡ true
      → holds S e head ≡ true
      → satisfies S e clauses ≡ true
  unfolding clauses_of holds
  clauses_of-satisfied e head [] clauses h c t =
      let same : head ∷ [] ≡ clauses = ground (arith) in
      ap (satisfies S e) (sym same) ∙ ground (arith)
  clauses_of-satisfied e (prop v) (entry ∷ m) clauses h c t =
      satisfies-collect law e v (entry ∷ m) [] clauses h ∙ defined-consistent e v (entry ∷ m) c t
  clauses_of-satisfied e head (entry ∷ m) clauses h c t = ground (arith)

  -- A model of a formula, whose identifiers are below `n`, can be changed, at identifiers from `n`
  -- on only, to a model of the clauses that the Tseitin conversion returns; the library brings in
  -- no variable, and the naive conversion keeps the meaning and the identifiers.
  pub convert_tseitin_complete :
      (f : Formula Q) (n : ℕ) (d : Env Q) (clauses : List (Formula Q))
      → Fits n f
      → convert L naive f n ≡ some clauses
      → holds S d f ≡ true
      → (e : Env Q) × Agree n d e × (satisfies S e clauses ≡ true)
  unfolding convert Completed
  convert_tseitin_complete f n d clauses w h t =
      let s : State Q = record { map = []; next = n } in
      let (head, s') = visit L naive f s in
      let (e, x, wh, same) = visit_complete f s d w (record { fits = tt; satisfied = refl }) in
      (e, x.agree, clauses_of-satisfied e head s'.map clauses h (x.model.satisfied) (same ∙ t))
