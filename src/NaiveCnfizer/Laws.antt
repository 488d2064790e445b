-- ===== src/NaiveCnfizer/Laws.antt =====
-- Distribution keeps the meaning.
use dlinear.Base.{ℕ, zero, suc, true, ◌&&◌, ◌||◌, ◌≡◌, refl, ◌∙◌, arith}
use dlinear.Symbolic.Syntax.{
  Formula, Formulas, bot, top, prop, eq, neq, gt, geq, lt, leq, conj, disj, neg, forall, nil, cons,
}
use dlinear.Symbolic.Meaning.{Structure, Env, holds, all_hold, some_holds, value_of}
use dlinear.Symbolic.Library.{Library, IsSound, insert}
use dlinear.Symbolic.Depth.{depth}
use dlinear.Symbolic.Quantifier.{for_all-cong}
use dlinear.Nnfizer.{convert as nnf}
use dlinear.Nnfizer.Laws.{all_hold-insert, some_holds-insert, holds-convert as holds-nnf}
use dlinear.NaiveCnfizer.{
  each_with, with_each, pairs, disjoin, accumulate, visit, visit_all, convert_fuel, convert,
}

module _ {Q : Type 0} {S : Structure Q} {L : Library Q} (law : IsSound S L) (env : Env Q) where
  all_hold-each_with :
      (cs : Formulas Q) (g : Formula Q) (r : Formulas Q)
      → all_hold S env (each_with L cs g r)
        ≡ (all_hold S env r && (all_hold S env cs || holds S env g))
  unfolding each_with holds
  all_hold-each_with nil g r = ground arith
  all_hold-each_with (cons c cs) g r =
      all_hold-each_with cs g _
      ∙ ground (arith, all_hold-insert law env (L.either c g) r, law.holds-either env c g)

  all_hold-with_each :
      (f : Formula Q) (ds r : Formulas Q)
      → all_hold S env (with_each L f ds r)
        ≡ (all_hold S env r && (holds S env f || all_hold S env ds))
  unfolding with_each holds
  all_hold-with_each f nil r = ground arith
  all_hold-with_each f (cons d ds) r =
      all_hold-with_each f ds _
      ∙ ground (arith, all_hold-insert law env (L.either f d) r, law.holds-either env f d)

  all_hold-pairs :
      (cs ds r : Formulas Q)
      → all_hold S env (pairs L cs ds r)
        ≡ (all_hold S env r && (all_hold S env cs || all_hold S env ds))
  unfolding pairs holds
  all_hold-pairs nil ds r = ground arith
  all_hold-pairs (cons c cs) ds r =
      all_hold-pairs cs ds _ ∙ ground (arith, all_hold-with_each c ds r)

  holds-single :
      (f g : Formula Q)
      → holds S env (L.make_conjunction (insert L (L.either f g) nil))
        ≡ (holds S env f || holds S env g)
  holds-single f g =
      law.holds-make_conjunction env _
      ∙ (all_hold-insert law env (L.either f g) nil
          ∙ unfold holds in ground (arith, law.holds-either env f g))

  holds-disjoin : (f g : Formula Q) → holds S env (disjoin L f g) ≡ (holds S env f || holds S env g)
  unfolding disjoin
  holds-disjoin (conj cs) (conj ds) =
      law.holds-make_conjunction env _ ∙ (all_hold-pairs cs ds nil ∙ unfold holds in refl)
  holds-disjoin (conj cs) g =
      law.holds-make_conjunction env _ ∙ (all_hold-each_with cs g nil ∙ unfold holds in refl)
  holds-disjoin f (conj ds) =
      law.holds-make_conjunction env _ ∙ (all_hold-with_each f ds nil ∙ unfold holds in refl)
  holds-disjoin f g = holds-single f g

  holds-accumulate :
      (f : Formula Q) (gs : Formulas Q)
      → holds S env (accumulate L f gs) ≡ (holds S env f || some_holds S env gs)
  unfolding accumulate holds
  holds-accumulate f nil = ground arith
  holds-accumulate f (cons g gs) =
      holds-accumulate (disjoin L f g) gs ∙ ground (arith, holds-disjoin f g)

module _ {Q : Type 0} {S : Structure Q} {L : Library Q} (law : IsSound S L) where
  module _ (inner : Formula Q → Formula Q)
      (same : (env : Env Q) (f : Formula Q) → holds S env (inner f) ≡ holds S env f) where
    mutual
      unfolding visit holds

      pub holds-visit :
          (f : Formula Q) (env : Env Q) → holds S env (visit L inner f) ≡ holds S env f
      holds-visit bot env = refl
      holds-visit top env = refl
      holds-visit (prop v) env = refl
      holds-visit (eq d e) env = ground (
        arith,
        law.holds-both env (L.greater_than_or_equal_to d e) (L.less_than_or_equal_to d e),
        law.holds-greater_than_or_equal_to env d e,
        law.holds-less_than_or_equal_to env d e,
        S.trichotomy (value_of S env d) (value_of S env e),
      )
      holds-visit (neq d e) env = ground (
        arith,
        law.holds-either env (L.greater_than d e) (L.less_than d e),
        law.holds-greater_than env d e,
        law.holds-less_than env d e,
        S.trichotomy (value_of S env d) (value_of S env e),
      )
      holds-visit (gt d e) env = refl
      holds-visit (geq d e) env = refl
      holds-visit (lt d e) env = refl
      holds-visit (leq d e) env = refl
      holds-visit (conj fs) env = law.holds-make_conjunction env _ ∙ all_hold-visit_all fs nil env
      holds-visit (disj fs) env =
          holds-accumulate law env bot (visit_all L inner fs nil) ∙ some_holds-visit_all fs nil env
      holds-visit (neg f) env = refl
      holds-visit (forall vs f) env =
          law.holds-make_forall env vs (inner f) ∙ for_all-cong S vs _ _ env (λ e _. same e f)

      all_hold-visit_all :
          (fs r : Formulas Q) (env : Env Q)
          → all_hold S env (visit_all L inner fs r) ≡ (all_hold S env r && all_hold S env fs)
      all_hold-visit_all nil r env = ground arith
      all_hold-visit_all (cons f fs) r env =
          all_hold-visit_all fs _ env
          ∙ ground (arith, all_hold-insert law env (visit L inner f) r, holds-visit f env)

      some_holds-visit_all :
          (fs r : Formulas Q) (env : Env Q)
          → some_holds S env (visit_all L inner fs r) ≡ (some_holds S env r || some_holds S env fs)
      some_holds-visit_all nil r env = ground arith
      some_holds-visit_all (cons f fs) r env =
          some_holds-visit_all fs _ env
          ∙ ground (arith, some_holds-insert law env (visit L inner f) r, holds-visit f env)

  holds-convert_fuel :
      (n : ℕ) (env : Env Q) (f : Formula Q) → holds S env (convert_fuel L n f) ≡ holds S env f
  unfolding convert_fuel
  holds-convert_fuel zero env f = refl
  holds-convert_fuel (suc n) env f =
      holds-visit (convert_fuel L n) (λ e g. holds-convert_fuel n e g) (nnf L f true) env
      ∙ holds-nnf law env f true

  -- The conversion by distribution holds where the formula holds, and nowhere else, for a symbolic
  -- library whose constructors keep the meaning.
  pub holds-convert_distributed :
      (env : Env Q) (f : Formula Q) → holds S env (convert L f) ≡ holds S env f
  unfolding convert
  holds-convert_distributed env f = holds-convert_fuel (suc (depth f)) env f
