-- ===== src/PlaistedGreenbaum/Fresh.antt =====
-- What the conversion adds: clauses whose variables lie below the counter, over environments that
-- differ from the given one at new variables only.
use dlinear.Base.{
  ℕ, ◌<◌, ◌≤◌, Bool, true, ◌≡◌, refl, sym, ◌∙◌, List, [], ◌∷◌, All, All-append, All-imp, arith,
}
use dlinear.Symbolic.Syntax.{Variable, Variables, Formula, Formulas, prop, disj, nil, cons}
use dlinear.Symbolic.Meaning.{Structure, Env, assign, holds, all_hold, for_all}
use dlinear.Symbolic.Fits.{Ascending, IdsBelow, Fits, AllFit, Agree, holds-Agree}
use dlinear.Symbolic.Weaken.{Fits-le}
use dlinear.Symbolic.Library.{Library, IsSound, IsClosed}
use dlinear.Symbolic.Quantifier.{for_all-imp}
use dlinear.Nnfizer.Closed.{insert-AllFit}
use dlinear.PlaistedGreenbaum.{State, emit, insert_all, guarded, emit_clauses, quantified}
use dlinear.PlaistedGreenbaum.Sound.{Satisfies, holds-quantified}

module _ {Q : Type 0} where
  abbrev pub AuxFits : ℕ → List (Formula Q) → Type 0
  AuxFits n fs = All (λ f. Fits n f) fs

  pub AuxFits-le : (n m : ℕ) (fs : List (Formula Q)) → n ≤ m → AuxFits n fs → AuxFits m fs
  AuxFits-le n m fs l h = All-imp (λ f w. Fits-le f n m l w) fs h

  pub Agree-refl : (n : ℕ) (d : Env Q) → Agree n d d
  Agree-refl n d = record { on_truth = λ i h. refl; on_value = λ i h. refl }

  pub Agree-trans : (n m : ℕ) (c d e : Env Q) → n ≤ m → Agree n c d → Agree m d e → Agree n c e
  Agree-trans n m c d e l a b = record {
    on_truth = λ i h. a.on_truth i h ∙ b.on_truth i (omega arith);
    on_value = λ i h. a.on_value i h ∙ b.on_value i (omega arith);
  }

  abbrev pub define : ℕ → Bool → Env Q → Env Q
  define n t env = record env { truth = assign env.truth n t }

  pub Agree-define : (n : ℕ) (t : Bool) (env : Env Q) → Agree n env (define n t env)
  Agree-define n t env = record { on_truth = λ i h. ground arith; on_value = λ i h. refl }

  pub define_self : (n : ℕ) (t : Bool) (env : Env Q) → (define n t env).truth n ≡ t
  define_self n t env = ground arith

  pub Satisfies-Agree :
      (S : Structure Q) (n : ℕ) (d e : Env Q) (fs : List (Formula Q))
      → AuxFits n fs
      → Agree n d e
      → Satisfies S d fs
      → Satisfies S e fs
  Satisfies-Agree S n d e [] w a h = tt
  Satisfies-Agree S n d e (f ∷ fs) w a h =
      (sym (holds-Agree S f n d e w.0 a) ∙ h.0, Satisfies-Agree S n d e fs w.1 a h.1)

module _ {Q : Type 0} {L : Library Q} (closed : IsClosed L) (n : ℕ) where
  insert_all-AllFit : (fs r : Formulas Q) → AllFit n fs → AllFit n r → AllFit n (insert_all L fs r)
  unfolding insert_all Fits
  insert_all-AllFit nil r h hr = hr
  insert_all-AllFit (cons f fs) r h hr = insert_all-AllFit fs _ h.1 (insert-AllFit L n f r h.0 hr)

  negated-AllFit : (b : Variable) → b.id < n → AllFit n (cons (L.negate (prop b)) nil)
  unfolding Fits
  negated-AllFit b h = (closed.negate-Fits n (prop b) h, tt)

  guarded-Fits : (b : Variable) (c : Formula Q) → b.id < n → Fits n c → Fits n (guarded L b c)
  unfolding guarded Fits
  guarded-Fits b (disj fs) hb h =
      closed.make_disjunction-Fits n _
        (insert_all-AllFit fs (cons (L.negate (prop b)) nil) h (negated-AllFit b hb))
  guarded-Fits b c hb h =
      closed.make_disjunction-Fits n _
        (insert-AllFit L n c (cons (L.negate (prop b)) nil) h (negated-AllFit b hb))

  quantified-Fits :
      (b : Variable) (vs : Variables) (c : Formula Q)
      → b.id < n
      → IdsBelow n vs
      → Ascending vs
      → Fits n c
      → Fits n (quantified L b vs c)
  quantified-Fits b vs c hb hv asc h =
      ground (arith, guarded-Fits b c hb h, closed.make_forall-Fits n vs (guarded L b c) hv asc)

  -- The clauses of a quantified formula are true where its proposition implies it.
  pub emit_clauses_complete :
      {S : Structure Q} (law : IsSound S L) (env : Env Q) (b : Variable) (vs : Variables)
      (cs : Formulas Q) (s : State Q)
      → b.id < n
      → IdsBelow n vs
      → Ascending vs
      → AllFit n cs
      → (env.truth b.id ≡ true → for_all S vs (λ e. all_hold S e cs) env ≡ true)
      → AuxFits n s.aux
      → Satisfies S env s.aux
      → AuxFits n (emit_clauses L b vs cs s).aux
        × Satisfies S env (emit_clauses L b vs cs s).aux
        × ((emit_clauses L b vs cs s).next ≡ s.next)
  unfolding emit_clauses Fits holds
  emit_clauses_complete law env b vs nil s hb hv asc hc t w h = (w, h, refl)
  emit_clauses_complete {S} law env b vs (cons c cs) s hb hv asc hc t w h =
      emit_clauses_complete law env b vs cs (emit (quantified L b vs c) s) hb hv asc hc.1
        (λ p. for_all-imp S vs _ _ env (λ e _ both. ground arith) (t p))
        (All-append _ s.aux (quantified L b vs c ∷ []) w
          (quantified-Fits b vs c hb hv asc hc.0, tt))
        (All-append _ s.aux (quantified L b vs c ∷ []) h (true_clause, tt))
    where
      first : env.truth b.id ≡ true → for_all S vs (λ e. holds S e c) env ≡ true
      first p = for_all-imp S vs _ _ env (λ e _ both. ground arith) (t p)

      true_clause : holds S env (quantified L b vs c) ≡ true
      true_clause = holds-quantified law env b vs c n hc.0 asc ∙ ground (arith, first)
