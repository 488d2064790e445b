-- ===== src/Symbolic/Weaken.antt =====
-- A formula that fits below a bound fits below every larger one.
use dlinear.Base.{ℕ, ◌≤◌, [], ◌∷◌, arith}
use dlinear.Symbolic.Syntax.{
  Variables, Expression, constant, variable, addition, multiplication, unary, binary, if_then_else,
  uninterpreted, Terms, no_term, term, Factors, no_factor, factor, Formula, bot, top, prop, eq, neq,
  gt, geq, lt, leq, conj, disj, neg, forall, Formulas, nil, cons,
}
use dlinear.Symbolic.Fits.{IdsBelow, ExpressionFits, TermsFit, FactorsFit, Fits, AllFit}

pub IdsBelow-le : (vs : Variables) (n m : ℕ) → n ≤ m → IdsBelow n vs → IdsBelow m vs
IdsBelow-le [] n m l h = tt
IdsBelow-le (v ∷ vs) n m l h = (omega arith, IdsBelow-le vs n m l h.1)

module _ {Q : Type 0} where
  mutual
    unfolding Fits

    pub ExpressionFits-le :
        (x : Expression Q) (n m : ℕ) → n ≤ m → ExpressionFits n x → ExpressionFits m x
    ExpressionFits-le (constant c) n m l h = tt
    ExpressionFits-le (variable v) n m l h = omega arith
    ExpressionFits-le (addition c ts) n m l h = TermsFit-le ts n m l h
    ExpressionFits-le (multiplication c fs) n m l h = FactorsFit-le fs n m l h
    ExpressionFits-le (unary op x) n m l h = ExpressionFits-le x n m l h
    ExpressionFits-le (binary op x y) n m l h =
        (ExpressionFits-le x n m l h.0, ExpressionFits-le y n m l h.1)
    ExpressionFits-le (if_then_else f x y) n m l h =
        (Fits-le f n m l h.0, ExpressionFits-le x n m l h.1, ExpressionFits-le y n m l h.2)
    ExpressionFits-le (uninterpreted name vs) n m l h = IdsBelow-le vs n m l h

    pub TermsFit-le : (ts : Terms Q) (n m : ℕ) → n ≤ m → TermsFit n ts → TermsFit m ts
    TermsFit-le no_term n m l h = tt
    TermsFit-le (term x c ts) n m l h = (ExpressionFits-le x n m l h.0, TermsFit-le ts n m l h.1)

    pub FactorsFit-le : (fs : Factors Q) (n m : ℕ) → n ≤ m → FactorsFit n fs → FactorsFit m fs
    FactorsFit-le no_factor n m l h = tt
    FactorsFit-le (factor x y fs) n m l h =
        (ExpressionFits-le x n m l h.0, ExpressionFits-le y n m l h.1, FactorsFit-le fs n m l h.2)

    pub Fits-le : (f : Formula Q) (n m : ℕ) → n ≤ m → Fits n f → Fits m f
    Fits-le bot n m l h = tt
    Fits-le top n m l h = tt
    Fits-le (prop v) n m l h = omega arith
    Fits-le (eq x y) n m l h = (ExpressionFits-le x n m l h.0, ExpressionFits-le y n m l h.1)
    Fits-le (neq x y) n m l h = (ExpressionFits-le x n m l h.0, ExpressionFits-le y n m l h.1)
    Fits-le (gt x y) n m l h = (ExpressionFits-le x n m l h.0, ExpressionFits-le y n m l h.1)
    Fits-le (geq x y) n m l h = (ExpressionFits-le x n m l h.0, ExpressionFits-le y n m l h.1)
    Fits-le (lt x y) n m l h = (ExpressionFits-le x n m l h.0, ExpressionFits-le y n m l h.1)
    Fits-le (leq x y) n m l h = (ExpressionFits-le x n m l h.0, ExpressionFits-le y n m l h.1)
    Fits-le (conj fs) n m l h = AllFit-le fs n m l h
    Fits-le (disj fs) n m l h = AllFit-le fs n m l h
    Fits-le (neg f) n m l h = Fits-le f n m l h
    Fits-le (forall vs f) n m l h = (IdsBelow-le vs n m l h.0, h.1, Fits-le f n m l h.2)

    pub AllFit-le : (fs : Formulas Q) (n m : ℕ) → n ≤ m → AllFit n fs → AllFit m fs
    AllFit-le nil n m l h = tt
    AllFit-le (cons f fs) n m l h = (Fits-le f n m l h.0, AllFit-le fs n m l h.1)
