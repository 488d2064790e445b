-- ===== src/TseitinCnfizer/Quantified.antt =====
-- A quantifier that goes into the clauses below it.
use dlinear.Base.{ℕ, true, ◌&&◌, ◌≡◌, refl, sym, ◌∙◌, if◌then◌else◌, Bool-cases, inl, inr, arith}
use dlinear.Symbolic.Syntax.{Variables, Formula, Formulas, nil, cons}
use dlinear.Symbolic.Meaning.{Structure, Env, holds, all_hold, for_all}
use dlinear.Symbolic.Kinds.{have_intersection}
use dlinear.Symbolic.Fits.{Ascending, Fits, AllFit}
use dlinear.Symbolic.Library.{Library, IsSound, insert}
use dlinear.Symbolic.Quantifier.{for_all-and, for_all-true}
use dlinear.Nnfizer.Laws.{all_hold-insert}
use dlinear.TseitinCnfizer.{quantify_all}

module _ {Q : Type 0} {S : Structure Q} {L : Library Q} (law : IsSound S L) where
  pub quantified_clause :
      (env : Env Q) (vs : Variables) (c : Formula Q) (n : ℕ)
      → Fits n c
      → Ascending vs
      → holds S env (if have_intersection (L.free_variables c) vs then L.make_forall vs c else c)
        ≡ for_all S vs (λ e. holds S e c) env
  unfolding holds
  quantified_clause env vs c n w asc =
      elim (Bool-cases (have_intersection (L.free_variables c) vs)) [
        | inl met ↦ rw met (law.holds-make_forall env vs c)
        | inr apart ↦ rw apart (sym (law.holds-disjoint env vs c n w asc apart))
      ]

  -- The quantifier goes into the clauses.
  pub all_hold-quantify_all :
      (env : Env Q) (vs : Variables) (cs r : Formulas Q) (n : ℕ)
      → AllFit n cs
      → Ascending vs
      → all_hold S env (quantify_all L vs cs r)
        ≡ (all_hold S env r && for_all S vs (λ e. all_hold S e cs) env)
  unfolding quantify_all holds Fits
  all_hold-quantify_all env vs nil r n w asc =
      ground (arith, for_all-true S vs (λ e. true) env (λ e. refl))
  all_hold-quantify_all env vs (cons c cs) r n w asc =
      let d = if have_intersection (L.free_variables c) vs then L.make_forall vs c else c in
      all_hold-quantify_all env vs cs (insert L d r) n w.1 asc
      ∙ ground (
        arith,
        all_hold-insert law env d r,
        quantified_clause env vs c n w.0 asc,
        for_all-and S vs (λ e. holds S e c) (λ e. all_hold S e cs) env,
      )
