-- ===== src/Symbolic/Fits.antt =====
-- Formulas whose variables all have identifiers below a bound, and whose quantifiers bind sets in
-- ascending order, as `std::set<Variable>` keeps them. The truth of such a formula depends on the
-- environment below the bound only.
use dlinear.Base.{ℕ, ◌<◌, ◌≡◌, refl, ap, ap₂, fun_ext, Bool, not, ◌&&◌, ◌||◌, [], ◌∷◌, All, arith}
use dlinear.Symbolic.Syntax.{
  Variables, Expression, constant, variable, addition, multiplication, unary, binary, if_then_else,
  uninterpreted, Terms, no_term, term, Factors, no_factor, factor, Formula, bot, top, prop, eq, neq,
  gt, geq, lt, leq, conj, disj, neg, forall, Formulas, nil, cons,
}
use dlinear.Symbolic.Meaning.{
  Structure, Env, assign, values, for_all, value_of, sum_of, product_of, holds, all_hold,
  some_holds,
}

abbrev pub Ascending : Variables → Type 0
Ascending [] = Unit
Ascending (v ∷ vs) = All (λ w. v.id < w.id) vs × Ascending vs

abbrev pub IdsBelow : ℕ → Variables → Type 0
IdsBelow n vs = All (λ v. v.id < n) vs

module _ {Q : Type 0} where
  unfoldable mutual
    pub ExpressionFits : ℕ → Expression Q → Type 0
    ExpressionFits n (constant c) = Unit
    ExpressionFits n (variable v) = v.id < n
    ExpressionFits n (addition c ts) = TermsFit n ts
    ExpressionFits n (multiplication c fs) = FactorsFit n fs
    ExpressionFits n (unary op e) = ExpressionFits n e
    ExpressionFits n (binary op d e) = ExpressionFits n d × ExpressionFits n e
    ExpressionFits n (if_then_else f d e) = Fits n f × ExpressionFits n d × ExpressionFits n e
    ExpressionFits n (uninterpreted name vs) = IdsBelow n vs

    pub TermsFit : ℕ → Terms Q → Type 0
    TermsFit n no_term = Unit
    TermsFit n (term e c ts) = ExpressionFits n e × TermsFit n ts

    pub FactorsFit : ℕ → Factors Q → Type 0
    FactorsFit n no_factor = Unit
    FactorsFit n (factor e d fs) = ExpressionFits n e × ExpressionFits n d × FactorsFit n fs

    pub Fits : ℕ → Formula Q → Type 0
    Fits n bot = Unit
    Fits n top = Unit
    Fits n (prop v) = v.id < n
    Fits n (eq d e) = ExpressionFits n d × ExpressionFits n e
    Fits n (neq d e) = ExpressionFits n d × ExpressionFits n e
    Fits n (gt d e) = ExpressionFits n d × ExpressionFits n e
    Fits n (geq d e) = ExpressionFits n d × ExpressionFits n e
    Fits n (lt d e) = ExpressionFits n d × ExpressionFits n e
    Fits n (leq d e) = ExpressionFits n d × ExpressionFits n e
    Fits n (conj fs) = AllFit n fs
    Fits n (disj fs) = AllFit n fs
    Fits n (neg f) = Fits n f
    Fits n (forall vs f) = IdsBelow n vs × Ascending vs × Fits n f

    pub AllFit : ℕ → Formulas Q → Type 0
    AllFit n nil = Unit
    AllFit n (cons f fs) = Fits n f × AllFit n fs

  -- Two environments give the same values to the variables below the bound.
  pub record Agree (n : ℕ) (d e : Env Q) : Type 0 where
    pub on_truth : (i : ℕ) → i < n → d.truth i ≡ e.truth i
    pub on_value : (i : ℕ) → i < n → d.value i ≡ e.value i

  pub Agree-assign :
      (n i : ℕ) (x : Q) (d e : Env Q)
      → Agree n d e
      → Agree n (record d { value = assign d.value i x }) (record e { value = assign e.value i x })
  Agree-assign n i x d e a = record {
    on_truth = a.on_truth;
    on_value = λ j h. ground (arith, a.on_value j h);
  }

module _ {Q : Type 0} (S : Structure Q) where
  pub for_all-Agree :
      (n : ℕ) (vs : Variables) (p : Env Q → Bool) (d e : Env Q)
      → ((d e : Env Q) → Agree n d e → p d ≡ p e)
      → Agree n d e
      → for_all S vs p d ≡ for_all S vs p e
  for_all-Agree n [] p d e h a = h d e a
  for_all-Agree n (v ∷ vs) p d e h a =
      ap S.every (fun_ext λ x. for_all-Agree n vs p _ _ h (Agree-assign n v.id x d e a))

  values-Agree :
      (n : ℕ) (vs : Variables) (d e : Env Q)
      → IdsBelow n vs
      → Agree n d e
      → values S d vs ≡ values S e vs
  values-Agree n [] d e h a = refl
  values-Agree n (v ∷ vs) d e h a = ap₂ ◌∷◌ (a.on_value v.id h.0) (values-Agree n vs d e h.1 a)

  mutual
    unfolding Fits holds

    pub value_of-Agree :
        (x : Expression Q) (n : ℕ) (d e : Env Q)
        → ExpressionFits n x
        → Agree n d e
        → value_of S d x ≡ value_of S e x
    value_of-Agree (constant c) n d e h a = refl
    value_of-Agree (variable v) n d e h a = a.on_value v.id h
    value_of-Agree (addition c ts) n d e h a = ap (S.plus c) (sum_of-Agree ts n d e h a)
    value_of-Agree (multiplication c fs) n d e h a = ap (S.times c) (product_of-Agree fs n d e h a)
    value_of-Agree (unary op x) n d e h a = ap (S.apply_unary op) (value_of-Agree x n d e h a)
    value_of-Agree (binary op x y) n d e h a =
        ap₂ (S.apply_binary op) (value_of-Agree x n d e h.0 a) (value_of-Agree y n d e h.1 a)
    value_of-Agree (if_then_else f x y) n d e h a =
        rw (holds-Agree f n d e h.0 a, value_of-Agree x n d e h.1 a, value_of-Agree y n d e h.2 a)
    value_of-Agree (uninterpreted name vs) n d e h a =
        ap (S.apply_uninterpreted name) (values-Agree n vs d e h a)

    pub sum_of-Agree :
        (ts : Terms Q) (n : ℕ) (d e : Env Q)
        → TermsFit n ts
        → Agree n d e
        → sum_of S d ts ≡ sum_of S e ts
    sum_of-Agree no_term n d e h a = refl
    sum_of-Agree (term x c ts) n d e h a =
        ap₂ (λ u w. S.plus (S.times c u) w) (value_of-Agree x n d e h.0 a)
          (sum_of-Agree ts n d e h.1 a)

    pub product_of-Agree :
        (fs : Factors Q) (n : ℕ) (d e : Env Q)
        → FactorsFit n fs
        → Agree n d e
        → product_of S d fs ≡ product_of S e fs
    product_of-Agree no_factor n d e h a = refl
    product_of-Agree (factor x y fs) n d e h a =
        ap₂ (λ u w. S.times u w)
          (ap₂ S.pow (value_of-Agree x n d e h.0 a) (value_of-Agree y n d e h.1 a))
          (product_of-Agree fs n d e h.2 a)

    pub holds-Agree :
        (f : Formula Q) (n : ℕ) (d e : Env Q) → Fits n f → Agree n d e → holds S d f ≡ holds S e f
    holds-Agree bot n d e h a = refl
    holds-Agree top n d e h a = refl
    holds-Agree (prop v) n d e h a = a.on_truth v.id h
    holds-Agree (eq x y) n d e h a =
        ap₂ S.equal (value_of-Agree x n d e h.0 a) (value_of-Agree y n d e h.1 a)
    holds-Agree (neq x y) n d e h a =
        ap not (ap₂ S.equal (value_of-Agree x n d e h.0 a) (value_of-Agree y n d e h.1 a))
    holds-Agree (gt x y) n d e h a =
        ap₂ S.less (value_of-Agree y n d e h.1 a) (value_of-Agree x n d e h.0 a)
    holds-Agree (geq x y) n d e h a =
        ap not (ap₂ S.less (value_of-Agree x n d e h.0 a) (value_of-Agree y n d e h.1 a))
    holds-Agree (lt x y) n d e h a =
        ap₂ S.less (value_of-Agree x n d e h.0 a) (value_of-Agree y n d e h.1 a)
    holds-Agree (leq x y) n d e h a =
        ap not (ap₂ S.less (value_of-Agree y n d e h.1 a) (value_of-Agree x n d e h.0 a))
    holds-Agree (conj fs) n d e h a = all_hold-Agree fs n d e h a
    holds-Agree (disj fs) n d e h a = some_holds-Agree fs n d e h a
    holds-Agree (neg f) n d e h a = ap not (holds-Agree f n d e h a)
    holds-Agree (forall vs f) n d e h a =
        for_all-Agree n vs _ d e (λ d' e' a'. holds-Agree f n d' e' h.2 a') a

    pub all_hold-Agree :
        (fs : Formulas Q) (n : ℕ) (d e : Env Q)
        → AllFit n fs
        → Agree n d e
        → all_hold S d fs ≡ all_hold S e fs
    all_hold-Agree nil n d e h a = refl
    all_hold-Agree (cons f fs) n d e h a =
        ap₂ ◌&&◌ (holds-Agree f n d e h.0 a) (all_hold-Agree fs n d e h.1 a)

    pub some_holds-Agree :
        (fs : Formulas Q) (n : ℕ) (d e : Env Q)
        → AllFit n fs
        → Agree n d e
        → some_holds S d fs ≡ some_holds S e fs
    some_holds-Agree nil n d e h a = refl
    some_holds-Agree (cons f fs) n d e h a =
        ap₂ ◌||◌ (holds-Agree f n d e h.0 a) (some_holds-Agree fs n d e h.1 a)
