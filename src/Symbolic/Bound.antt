-- ===== src/Symbolic/Bound.antt =====
-- A bound above every identifier that stands in a formula.
use Prim.Native.Nat.{max}
use dlinear.Base.{ℕ, suc, ◌≤◌, [], ◌∷◌, arith}
use dlinear.Symbolic.Syntax.{
  Variables, Expression, constant, variable, addition, multiplication, unary, binary, if_then_else,
  uninterpreted, Terms, no_term, term, Factors, no_factor, factor, Formula, bot, top, prop, eq, neq,
  gt, geq, lt, leq, conj, disj, neg, forall, Formulas, nil, cons,
}
use dlinear.Symbolic.Fits.{IdsBelow, ExpressionFits, TermsFit, FactorsFit, Fits, AllFit}

unfoldable pub bound_all : Variables → ℕ
bound_all [] = 0
bound_all (v ∷ vs) = max (suc v.id) (bound_all vs)

bound_all-IdsBelow : (vs : Variables) (m : ℕ) → bound_all vs ≤ m → IdsBelow m vs
unfolding bound_all
bound_all-IdsBelow [] m h = tt
bound_all-IdsBelow (v ∷ vs) m h = (omega arith, bound_all-IdsBelow vs m (omega arith))

module _ {Q : Type 0} where
  unfoldable mutual
    pub bound_expression : Expression Q → ℕ
    bound_expression (constant c) = 0
    bound_expression (variable v) = suc v.id
    bound_expression (addition c ts) = bound_terms ts
    bound_expression (multiplication c fs) = bound_factors fs
    bound_expression (unary op e) = bound_expression e
    bound_expression (binary op d e) = max (bound_expression d) (bound_expression e)
    bound_expression (if_then_else f d e) =
        max (bound f) (max (bound_expression d) (bound_expression e))
    bound_expression (uninterpreted name vs) = bound_all vs

    pub bound_terms : Terms Q → ℕ
    bound_terms no_term = 0
    bound_terms (term e c ts) = max (bound_expression e) (bound_terms ts)

    pub bound_factors : Factors Q → ℕ
    bound_factors no_factor = 0
    bound_factors (factor d e fs) =
        max (bound_expression d) (max (bound_expression e) (bound_factors fs))

    pub bound : Formula Q → ℕ
    bound bot = 0
    bound top = 0
    bound (prop v) = suc v.id
    bound (eq d e) = max (bound_expression d) (bound_expression e)
    bound (neq d e) = max (bound_expression d) (bound_expression e)
    bound (gt d e) = max (bound_expression d) (bound_expression e)
    bound (geq d e) = max (bound_expression d) (bound_expression e)
    bound (lt d e) = max (bound_expression d) (bound_expression e)
    bound (leq d e) = max (bound_expression d) (bound_expression e)
    bound (conj fs) = bound_formulas fs
    bound (disj fs) = bound_formulas fs
    bound (neg f) = bound f
    bound (forall vs f) = max (bound_all vs) (bound f)

    pub bound_formulas : Formulas Q → ℕ
    bound_formulas nil = 0
    bound_formulas (cons f fs) = max (bound f) (bound_formulas fs)

  mutual
    unfolding bound Fits

    ExpressionFits-bound :
        (x : Expression Q) (n m : ℕ)
        → bound_expression x ≤ m
        → ExpressionFits n x
        → ExpressionFits m x
    ExpressionFits-bound (constant c) n m l h = tt
    ExpressionFits-bound (variable v) n m l h = l
    ExpressionFits-bound (addition c ts) n m l h = TermsFit-bound ts n m l h
    ExpressionFits-bound (multiplication c fs) n m l h = FactorsFit-bound fs n m l h
    ExpressionFits-bound (unary op x) n m l h = ExpressionFits-bound x n m l h
    ExpressionFits-bound (binary op x y) n m l h =
        (ExpressionFits-bound x n m (omega arith) h.0, ExpressionFits-bound y n m (omega arith) h.1)
    ExpressionFits-bound (if_then_else f x y) n m l h = (
      Fits-bound f n m (omega arith) h.0,
      ExpressionFits-bound x n m (omega arith) h.1,
      ExpressionFits-bound y n m (omega arith) h.2,
    )
    ExpressionFits-bound (uninterpreted name vs) n m l h = bound_all-IdsBelow vs m l

    TermsFit-bound : (ts : Terms Q) (n m : ℕ) → bound_terms ts ≤ m → TermsFit n ts → TermsFit m ts
    TermsFit-bound no_term n m l h = tt
    TermsFit-bound (term x c ts) n m l h =
        (ExpressionFits-bound x n m (omega arith) h.0, TermsFit-bound ts n m (omega arith) h.1)

    FactorsFit-bound :
        (fs : Factors Q) (n m : ℕ) → bound_factors fs ≤ m → FactorsFit n fs → FactorsFit m fs
    FactorsFit-bound no_factor n m l h = tt
    FactorsFit-bound (factor x y fs) n m l h = (
      ExpressionFits-bound x n m (omega arith) h.0,
      ExpressionFits-bound y n m (omega arith) h.1,
      FactorsFit-bound fs n m (omega arith) h.2,
    )

    pub Fits-bound : (f : Formula Q) (n m : ℕ) → bound f ≤ m → Fits n f → Fits m f
    Fits-bound bot n m l h = tt
    Fits-bound top n m l h = tt
    Fits-bound (prop v) n m l h = l
    Fits-bound (eq x y) n m l h =
        (ExpressionFits-bound x n m (omega arith) h.0, ExpressionFits-bound y n m (omega arith) h.1)
    Fits-bound (neq x y) n m l h =
        (ExpressionFits-bound x n m (omega arith) h.0, ExpressionFits-bound y n m (omega arith) h.1)
    Fits-bound (gt x y) n m l h =
        (ExpressionFits-bound x n m (omega arith) h.0, ExpressionFits-bound y n m (omega arith) h.1)
    Fits-bound (geq x y) n m l h =
        (ExpressionFits-bound x n m (omega arith) h.0, ExpressionFits-bound y n m (omega arith) h.1)
    Fits-bound (lt x y) n m l h =
        (ExpressionFits-bound x n m (omega arith) h.0, ExpressionFits-bound y n m (omega arith) h.1)
    Fits-bound (leq x y) n m l h =
        (ExpressionFits-bound x n m (omega arith) h.0, ExpressionFits-bound y n m (omega arith) h.1)
    Fits-bound (conj fs) n m l h = AllFit-bound fs n m l h
    Fits-bound (disj fs) n m l h = AllFit-bound fs n m l h
    Fits-bound (neg f) n m l h = Fits-bound f n m l h
    Fits-bound (forall vs f) n m l h =
        (bound_all-IdsBelow vs m (omega arith), h.1, Fits-bound f n m (omega arith) h.2)

    AllFit-bound : (fs : Formulas Q) (n m : ℕ) → bound_formulas fs ≤ m → AllFit n fs → AllFit m fs
    AllFit-bound nil n m l h = tt
    AllFit-bound (cons f fs) n m l h =
        (Fits-bound f n m (omega arith) h.0, AllFit-bound fs n m (omega arith) h.1)
