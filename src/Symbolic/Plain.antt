-- ===== src/Symbolic/Plain.antt =====
-- A library whose constructors do not simplify, as an instance of the interface: what is proved
-- over the interface can be run on it.
use mathlib.Core.Bool.{false≢true}
use dlinear.Base.{
  All-imp, ℕ, zero, suc, ◌+◌, ◌≤◌, Bool, true, false, ◌≡◌, refl, ◌∙◌, ap, [], ◌∷◌, All, Bool-cases,
  inl, inr, arith, fun_ext,
}
use dlinear.Symbolic.Syntax.{
  Variables, continuous, eq, neq, gt, geq, lt, leq, conj, disj, neg, forall, nil, cons,
}
use dlinear.Symbolic.Meaning.{Structure, Env, holds, for_all}
use dlinear.Symbolic.Kinds.{have_intersection}
use dlinear.Symbolic.Fits.{Ascending, Fits, Agree, holds-Agree}
use dlinear.Symbolic.Depth.{KeepsDepth, depth}
use dlinear.Symbolic.Library.{Library, IsSound, IsClosed}
use dlinear.Symbolic.Bound.{bound, bound_all, Fits-bound}

-- The identifiers from `k` on, `c` of them.
range : ℕ → ℕ → Variables
range k zero = []
range k (suc c) = record { id = k; type = continuous } ∷ range (suc k) c

-- A set that meets no identifier of a range lies above it.
range_apart :
    (c k : ℕ) (vs : Variables)
    → Ascending vs
    → All (λ v. k ≤ v.id) vs
    → have_intersection (range k c) vs ≡ false
    → All (λ v. k + c ≤ v.id) vs
unfolding range have_intersection
range_apart zero k vs asc above h = All-imp (λ v l. omega arith) vs above
range_apart (suc c) k [] asc above h = tt
range_apart (suc c) k (v ∷ vs) asc above h =
    All-imp (λ w l. omega arith) (v ∷ vs)
      (range_apart c (suc k) (v ∷ vs) asc (ground arith, All-imp (λ w l. ground arith) vs asc.0)
        (ground arith))

above_zero : (vs : Variables) → All (λ v. 0 ≤ v.id) vs
above_zero [] = tt
above_zero (v ∷ vs) = (omega arith, above_zero vs)

module _ {Q : Type 0} (S : Structure Q) where
  every_const : (b : Bool) → S.every (λ _. b) ≡ b
  every_const true = (S.every_iff _).1 (λ x. refl)
  every_const false = elim (Bool-cases (S.every (λ _. false))) [
    | inl p ↦ absurd (false≢true ((S.every_iff _).0 p S.zero))
    | inr p ↦ p
  ]

  -- Quantifying over variables that a property does not depend on changes nothing.
  for_all-above :
      (m : ℕ) (vs : Variables) (p : Env Q → Bool) (env : Env Q)
      → ((d e : Env Q) → Agree m d e → p d ≡ p e)
      → All (λ v. m ≤ v.id) vs
      → for_all S vs p env ≡ p env
  for_all-above m [] p env h above = refl
  for_all-above m (v ∷ vs) p env h above =
      ap S.every (
        fun_ext (λ x.
          for_all-above m vs p _ h above.1
          ∙ h _ env (record { on_truth = λ i l. refl; on_value = λ i l. ground arith })))
      ∙ every_const (p env)

module _ {Q : Type 0} where
  unfoldable pub plain : Library Q
  unfolding range bound bound_all
  plain = record {
    negate = neg;
    both = λ f g. conj (cons f (cons g nil));
    either = λ f g. disj (cons f (cons g nil));
    make_conjunction = conj;
    make_disjunction = disj;
    make_forall = forall;
    equal_to = eq;
    not_equal_to = neq;
    greater_than = gt;
    greater_than_or_equal_to = geq;
    less_than = lt;
    less_than_or_equal_to = leq;
    less = λ f g. true;
    same = λ f g. false;
    free_variables = λ f. range 0 (bound f);
  }

  pub plain-IsSound : (S : Structure Q) → IsSound S plain
  unfolding plain holds
  plain-IsSound S = record {
    holds-negate = λ env f. refl;
    holds-both = λ env f g. ground arith;
    holds-either = λ env f g. ground arith;
    holds-make_conjunction = λ env fs. refl;
    holds-make_disjunction = λ env fs. refl;
    holds-make_forall = λ env vs f. refl;
    holds-equal_to = λ env d e. refl;
    holds-not_equal_to = λ env d e. refl;
    holds-greater_than = λ env d e. refl;
    holds-greater_than_or_equal_to = λ env d e. refl;
    holds-less_than = λ env d e. refl;
    holds-less_than_or_equal_to = λ env d e. refl;
    holds-disjoint = λ env vs f n w asc h.
        for_all-above S (bound f) vs (λ e. holds S e f) env
          (λ d e a. holds-Agree S f (bound f) d e (Fits-bound f n (bound f) (omega arith) w) a)
          (All-imp (λ v l. omega arith) vs (range_apart (bound f) 0 vs asc (above_zero vs) h));
    eq_of_not_less = λ f g p q. cc;
    eq_of_same = λ f g p. cc;
  }

  pub plain-IsClosed : IsClosed plain
  unfolding plain Fits
  plain-IsClosed = record {
    negate-Fits = λ n f h. h;
    both-Fits = λ n f g h k. (h, (k, tt));
    either-Fits = λ n f g h k. (h, (k, tt));
    make_conjunction-Fits = λ n fs h. h;
    make_disjunction-Fits = λ n fs h. h;
    make_forall-Fits = λ n vs f h k l. (h, k, l);
    equal_to-Fits = λ n d e h k. (h, k);
    not_equal_to-Fits = λ n d e h k. (h, k);
    greater_than-Fits = λ n d e h k. (h, k);
    greater_than_or_equal_to-Fits = λ n d e h k. (h, k);
    less_than-Fits = λ n d e h k. (h, k);
    less_than_or_equal_to-Fits = λ n d e h k. (h, k);
  }

  pub plain-KeepsDepth : KeepsDepth plain
  unfolding plain depth
  plain-KeepsDepth = record {
    depth-negate = λ f. omega arith;
    depth-make_conjunction = λ fs. omega arith;
    depth-make_disjunction = λ fs. omega arith;
    depth-equal_to = λ d e. refl;
    depth-not_equal_to = λ d e. refl;
    depth-greater_than = λ d e. refl;
    depth-greater_than_or_equal_to = λ d e. refl;
    depth-less_than = λ d e. refl;
    depth-less_than_or_equal_to = λ d e. refl;
  }
