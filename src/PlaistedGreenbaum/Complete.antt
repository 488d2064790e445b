-- ===== src/PlaistedGreenbaum/Complete.antt =====
-- A model of the formula extends to a model of the clauses, by values for the new variables.
use dlinear.Base.{ℕ, ◌+◌, ◌<◌, true, ◌||◌, ◌≡◌, refl, sym, ◌∙◌, [], arith}
use dlinear.Symbolic.Syntax.{
  Variable, Formula, Formulas, bot, top, prop, eq, neq, gt, geq, lt, leq, conj, disj, neg, forall,
  nil, cons,
}
use dlinear.Symbolic.Meaning.{Structure, Env, holds, all_hold, some_holds, for_all}
use dlinear.Symbolic.Kinds.{get_clauses}
use dlinear.Symbolic.Fits.{
  Fits, AllFit, Agree, for_all-Agree, holds-Agree, all_hold-Agree, some_holds-Agree,
}
use dlinear.Symbolic.Weaken.{IdsBelow-le, Fits-le, AllFit-le}
use dlinear.Symbolic.Library.{Library, IsSound, IsClosed, insert}
use dlinear.Symbolic.Quantifier.{for_all-imp}
use dlinear.Nnfizer.{convert as nnf}
use dlinear.Nnfizer.Laws.{some_holds-insert, holds-convert as holds-nnf}
use dlinear.Nnfizer.Closed.{insert-AllFit, convert-Fits}
use dlinear.PlaistedGreenbaum.{
  State, fresh, declare, emit, visit, visit_conjuncts, visit_disjuncts, convert,
}
use dlinear.PlaistedGreenbaum.Sound.{Satisfies, all_hold-get_clauses, get_clauses-AllFit}
use dlinear.PlaistedGreenbaum.Fresh.{
  Agree-trans, define, Agree-define, define_self, emit_clauses_complete,
}
use dlinear.PlaistedGreenbaum.Extend.{
  IsModel-declare, IsModel-emit, Extends-refl, Extends-IsModel, Extends-trans, Extends, IsModel,
}

module _ {Q : Type 0} {S : Structure Q} {L : Library Q} (law : IsSound S L) (closed : IsClosed L)
    (naive : Formula Q → Formula Q)
    (holds-naive : (env : Env Q) (f : Formula Q) → holds S env (naive f) ≡ holds S env f)
    (naive-Fits : (n : ℕ) (f : Formula Q) → Fits n f → Fits n (naive f)) where
  implied :
      (d : Env Q) (b : Variable) (g : Formula Q)
      → (d.truth b.id ≡ true → holds S d g ≡ true)
      → holds S d (L.either (L.negate (prop b)) g) ≡ true
  unfolding holds
  implied d b g h =
      ground (arith, law.holds-either d (L.negate (prop b)) g, law.holds-negate d (prop b))

  mutual
    unfolding visit holds Fits

    pub visit_complete :
        (f : Formula Q) (s : State Q) (d : Env Q)
        → Fits s.next f
        → IsModel S s d
        → (e : Env Q) × Extends S s (visit L naive f s).1 d e
          × Fits (visit L naive f s).1.next (visit L naive f s).0
          × (holds S e (visit L naive f s).0 ≡ holds S d f)
    visit_complete bot s d w m = (d, Extends-refl S s d m, w, refl)
    visit_complete top s d w m = (d, Extends-refl S s d m, w, refl)
    visit_complete (prop v) s d w m = (d, Extends-refl S s d m, w, refl)
    visit_complete (eq x y) s d w m = (d, Extends-refl S s d m, w, refl)
    visit_complete (neq x y) s d w m = (d, Extends-refl S s d m, w, refl)
    visit_complete (gt x y) s d w m = (d, Extends-refl S s d m, w, refl)
    visit_complete (geq x y) s d w m = (d, Extends-refl S s d m, w, refl)
    visit_complete (lt x y) s d w m = (d, Extends-refl S s d m, w, refl)
    visit_complete (leq x y) s d w m = (d, Extends-refl S s d m, w, refl)
    visit_complete (conj fs) s d w m =
        let t = all_hold S d fs in
        let c = define s.next t d in
        let a = Agree-define s.next t d in
        let (e, x) =
          conjuncts_complete fs (fresh s.next) (declare s) c (omega arith)
            (AllFit-le fs s.next (s.next + 1) (omega arith) w) (IsModel-declare S s d t m)
            (λ p. sym (all_hold-Agree S fs s.next d c w a) ∙ (sym (define_self s.next t d) ∙ p)) in
        let g = x.grows in
        (
          e,
          Extends-trans S s (declare s) _ d c e a (omega arith) x,
          omega arith,
          sym (x.agree.on_truth s.next (omega arith)) ∙ define_self s.next t d,
        )
    visit_complete (disj fs) s d w m =
        let t = some_holds S d fs in
        let b = fresh s.next in
        let c = define s.next t d in
        let a = Agree-define s.next t d in
        let (clause, s') = visit_disjuncts L naive fs nil (declare s) in
        let (e, x, cf, same) =
          disjuncts_complete fs nil (declare s) c (AllFit-le fs s.next (s.next + 1) (omega arith) w)
            tt (IsModel-declare S s d t m) in
        let g = x.grows in
        let now = sym (x.agree.on_truth s.next (omega arith)) ∙ define_self s.next t d in
        let negated = L.negate (prop b) in
        let last = L.make_disjunction (insert L negated clause) in
        let done =
          IsModel-emit S s' e last (Extends-IsModel S (declare s) s' c e x)
            (closed.make_disjunction-Fits s'.next (insert L negated clause) (
              insert-AllFit L s'.next negated clause
                (closed.negate-Fits s'.next (prop b) (omega arith)) cf))
            (ground (
              arith,
              now,
              same,
              some_holds-Agree S fs s.next d c w a,
              law.holds-make_disjunction e (insert L negated clause),
              some_holds-insert law e negated clause,
              law.holds-negate e (prop b),
            )) in
        (
          e,
          record {
            agree = Agree-trans s.next (s.next + 1) d c e (omega arith) a x.agree;
            grows = omega arith;
            fits = done.fits;
            satisfied = done.satisfied;
          },
          omega arith,
          now,
        )
    visit_complete (neg f) s d w m = (d, Extends-refl S s d m, w, refl)
    visit_complete (forall vs f) s d w m =
        let t = for_all S vs (λ e. holds S e f) d in
        let b = fresh s.next in
        let c = define s.next t d in
        let a = Agree-define s.next t d in
        let now = define_self s.next t d in
        let start = IsModel-declare S s d t m in
        let same =
          for_all-Agree S s.next vs (λ e. holds S e f) d c
            (λ d' e' a'. holds-Agree S f s.next d' e' w.2 a') a in
        let clauses = get_clauses (naive f) in
        let (fits, satisfied, still) =
          emit_clauses_complete closed (s.next + 1) law c b vs clauses (declare s) (omega arith)
            (IdsBelow-le vs s.next (s.next + 1) (omega arith) w.0) w.1
            (get_clauses-AllFit (s.next + 1) (naive f)
              (naive-Fits (s.next + 1) f (Fits-le f s.next (s.next + 1) (omega arith) w.2)))
            (λ p.
              for_all-imp S vs _ _ c
                (λ e _ q. all_hold-get_clauses S (naive f) e ∙ (holds-naive e f ∙ q))
                (sym same ∙ (sym now ∙ p)))
            start.fits start.satisfied in
        (
          c,
          record {
            agree = a;
            grows = omega (arith, still);
            fits = rw still fits;
            satisfied = satisfied;
          },
          omega (arith, still),
          now,
        )

    conjuncts_complete :
        (fs : Formulas Q) (b : Variable) (s : State Q) (d : Env Q)
        → b.id < s.next
        → AllFit s.next fs
        → IsModel S s d
        → (d.truth b.id ≡ true → all_hold S d fs ≡ true)
        → (e : Env Q) × Extends S s (visit_conjuncts L naive fs b s) d e
    conjuncts_complete nil b s d l w m t = (d, Extends-refl S s d m)
    conjuncts_complete (cons f fs) b s d l w m t =
        let (g, s') = visit L naive f s in
        let (e, x, gf, same) = visit_complete f s d w.0 m in
        let grown = x.grows in
        let at_b = x.agree.on_truth b.id l in
        let clause = L.either (L.negate (prop b)) g in
        let next =
          IsModel-emit S s' e clause (Extends-IsModel S s s' d e x)
            (closed.either-Fits s'.next (L.negate (prop b)) g
              (closed.negate-Fits s'.next (prop b) (omega arith)) gf)
            (implied e b g (λ p. ground (arith, t (at_b ∙ p), same))) in
        let (e', x') =
          conjuncts_complete fs b (emit clause s') e (omega arith)
            (AllFit-le fs s.next s'.next grown w.1) next
            (λ p.
              sym (all_hold-Agree S fs s.next d e w.1 x.agree) ∙ ground (arith, t (at_b ∙ p))) in
        (e', Extends-trans S s (emit clause s') _ d e e' x.agree grown x')

    disjuncts_complete :
        (fs clause : Formulas Q) (s : State Q) (d : Env Q)
        → AllFit s.next fs
        → AllFit s.next clause
        → IsModel S s d
        → (e : Env Q) × Extends S s (visit_disjuncts L naive fs clause s).1 d e
          × AllFit
              (visit_disjuncts L naive fs clause s).1.next
              (visit_disjuncts L naive fs clause s).0
          × (some_holds S e (visit_disjuncts L naive fs clause s).0
              ≡ (some_holds S d clause || some_holds S d fs))
    disjuncts_complete nil clause s d w wc m = (d, Extends-refl S s d m, wc, ground arith)
    disjuncts_complete (cons f fs) clause s d w wc m =
        let (g, s') = visit L naive f s in
        let (e, x, gf, same) = visit_complete f s d w.0 m in
        let grown = x.grows in
        let (e', x', cf, rest) =
          disjuncts_complete fs (insert L g clause) s' e (AllFit-le fs s.next s'.next grown w.1)
            (insert-AllFit L s'.next g clause gf (AllFit-le clause s.next s'.next grown wc))
            (Extends-IsModel S s s' d e x) in
        (
          e',
          Extends-trans S s s' _ d e e' x.agree grown x',
          cf,
          rest
              ∙ ground (
                arith,
                same,
                some_holds-insert law e g clause,
                some_holds-Agree S fs s.next d e w.1 x.agree,
                some_holds-Agree S clause s.next d e wc x.agree,
              ),
        )

  -- A model of a formula whose identifiers are below `n` can be changed, at identifiers from `n` on
  -- only, to a model of every clause that `convert` collects; the library brings in no variable,
  -- and the naive conversion keeps the meaning and the identifiers.
  pub convert_complete :
      (f : Formula Q) (n : ℕ) (d : Env Q)
      → Fits n f
      → holds S d f ≡ true
      → (e : Env Q) × Agree n d e × Satisfies S e (convert L naive f n).aux
  unfolding convert
  convert_complete f n d w h =
      let start : State Q = record { aux = []; vars = []; next = n } in
      let (head, s) = visit L naive (nnf L f true) start in
      let (e, x, hf, same) =
        visit_complete (nnf L f true) start d (convert-Fits closed n f true w)
          (record { fits = tt; satisfied = tt }) in
      let done =
        IsModel-emit S s e head (Extends-IsModel S start s d e x) hf
          (same ∙ (holds-nnf law d f true ∙ h)) in
      (e, x.agree, done.satisfied)
