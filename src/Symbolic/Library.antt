-- ===== src/Symbolic/Library.antt =====
-- The functions of the symbolic library that build formulas, as an interface: `operator!`,
-- `operator&&`, `operator||`, `make_conjunction`, `make_disjunction`, `forall`, the six
-- comparisons of expressions, `Formula::Less`, `Formula::EqualTo` (`same`) and
-- `GetFreeVariables`. They simplify as they build,
-- so what they return is known only by its meaning.
use dlinear.Base.{true, ℕ, Bool, false, not, ◌&&◌, ◌||◌, ◌≡◌, if◌then◌else◌}
use dlinear.Symbolic.Syntax.{
  Variables, Expression, Formula, Formulas, eq, neq, gt, geq, lt, leq, forall, nil, cons,
}
use dlinear.Symbolic.Kinds.{have_intersection}
use dlinear.Symbolic.Fits.{Ascending, IdsBelow, ExpressionFits, Fits, AllFit}
use dlinear.Symbolic.Meaning.{Structure, Env, holds, all_hold, some_holds}

pub record Library (Q : Type 0) : Type 0 where
  pub negate : Formula Q → Formula Q
  pub both : Formula Q → Formula Q → Formula Q
  pub either : Formula Q → Formula Q → Formula Q
  pub make_conjunction : Formulas Q → Formula Q
  pub make_disjunction : Formulas Q → Formula Q
  pub make_forall : Variables → Formula Q → Formula Q
  pub equal_to : Expression Q → Expression Q → Formula Q
  pub not_equal_to : Expression Q → Expression Q → Formula Q
  pub greater_than : Expression Q → Expression Q → Formula Q
  pub greater_than_or_equal_to : Expression Q → Expression Q → Formula Q
  pub less_than : Expression Q → Expression Q → Formula Q
  pub less_than_or_equal_to : Expression Q → Expression Q → Formula Q
  pub less : Formula Q → Formula Q → Bool
  pub same : Formula Q → Formula Q → Bool
  pub free_variables : Formula Q → Variables

-- The documented meaning of each: a formula that a simplification changes still says the same.
pub record IsSound {Q : Type 0} (S : Structure Q) (L : Library Q) : Type 0 where
  pub holds-negate : (env : Env Q) (f : Formula Q) → holds S env (L.negate f) ≡ not (holds S env f)
  pub holds-both :
      (env : Env Q) (f g : Formula Q) → holds S env (L.both f g) ≡ (holds S env f && holds S env g)
  pub holds-either :
      (env : Env Q) (f g : Formula Q)
      → holds S env (L.either f g) ≡ (holds S env f || holds S env g)
  pub holds-make_conjunction :
      (env : Env Q) (fs : Formulas Q) → holds S env (L.make_conjunction fs) ≡ all_hold S env fs
  pub holds-make_disjunction :
      (env : Env Q) (fs : Formulas Q) → holds S env (L.make_disjunction fs) ≡ some_holds S env fs
  pub holds-make_forall :
      (env : Env Q) (vs : Variables) (f : Formula Q)
      → holds S env (L.make_forall vs f) ≡ holds S env (forall vs f)
  pub holds-equal_to :
      (env : Env Q) (d e : Expression Q) → holds S env (L.equal_to d e) ≡ holds S env (eq d e)
  pub holds-not_equal_to :
      (env : Env Q) (d e : Expression Q) → holds S env (L.not_equal_to d e) ≡ holds S env (neq d e)
  pub holds-greater_than :
      (env : Env Q) (d e : Expression Q) → holds S env (L.greater_than d e) ≡ holds S env (gt d e)
  pub holds-greater_than_or_equal_to :
      (env : Env Q) (d e : Expression Q)
      → holds S env (L.greater_than_or_equal_to d e) ≡ holds S env (geq d e)
  pub holds-less_than :
      (env : Env Q) (d e : Expression Q) → holds S env (L.less_than d e) ≡ holds S env (lt d e)
  pub holds-less_than_or_equal_to :
      (env : Env Q) (d e : Expression Q)
      → holds S env (L.less_than_or_equal_to d e) ≡ holds S env (leq d e)
  -- `GetFreeVariables`: a quantifier over a set that meets none of them changes nothing.
  pub holds-disjoint :
      (env : Env Q) (vs : Variables) (f : Formula Q) (n : ℕ)
      → Fits n f
      → Ascending vs
      → have_intersection (L.free_variables f) vs ≡ false
      → holds S env (forall vs f) ≡ holds S env f
  -- Two formulas of which neither is less are structurally equal.
  pub eq_of_not_less : (f g : Formula Q) → L.less f g ≡ false → L.less g f ≡ false → f ≡ g
  pub eq_of_same : (f g : Formula Q) → L.same f g ≡ true → f ≡ g

-- The constructors bring in no variable that their arguments do not have.
pub record IsClosed {Q : Type 0} (L : Library Q) : Type 0 where
  pub negate-Fits : (n : ℕ) (f : Formula Q) → Fits n f → Fits n (L.negate f)
  pub both-Fits : (n : ℕ) (f g : Formula Q) → Fits n f → Fits n g → Fits n (L.both f g)
  pub either-Fits : (n : ℕ) (f g : Formula Q) → Fits n f → Fits n g → Fits n (L.either f g)
  pub make_conjunction-Fits :
      (n : ℕ) (fs : Formulas Q) → AllFit n fs → Fits n (L.make_conjunction fs)
  pub make_disjunction-Fits :
      (n : ℕ) (fs : Formulas Q) → AllFit n fs → Fits n (L.make_disjunction fs)
  pub make_forall-Fits :
      (n : ℕ) (vs : Variables) (f : Formula Q)
      → IdsBelow n vs
      → Ascending vs
      → Fits n f
      → Fits n (L.make_forall vs f)
  pub equal_to-Fits :
      (n : ℕ) (d e : Expression Q)
      → ExpressionFits n d
      → ExpressionFits n e
      → Fits n (L.equal_to d e)
  pub not_equal_to-Fits :
      (n : ℕ) (d e : Expression Q)
      → ExpressionFits n d
      → ExpressionFits n e
      → Fits n (L.not_equal_to d e)
  pub greater_than-Fits :
      (n : ℕ) (d e : Expression Q)
      → ExpressionFits n d
      → ExpressionFits n e
      → Fits n (L.greater_than d e)
  pub greater_than_or_equal_to-Fits :
      (n : ℕ) (d e : Expression Q)
      → ExpressionFits n d
      → ExpressionFits n e
      → Fits n (L.greater_than_or_equal_to d e)
  pub less_than-Fits :
      (n : ℕ) (d e : Expression Q)
      → ExpressionFits n d
      → ExpressionFits n e
      → Fits n (L.less_than d e)
  pub less_than_or_equal_to-Fits :
      (n : ℕ) (d e : Expression Q)
      → ExpressionFits n d
      → ExpressionFits n e
      → Fits n (L.less_than_or_equal_to d e)

module _ {Q : Type 0} (L : Library Q) where
  -- `std::set<Formula>::insert`, by `Formula::Less`; an equal element stays.
  unfoldable pub insert : Formula Q → Formulas Q → Formulas Q
  insert f nil = cons f nil
  insert f (cons g gs) =
      let rest = insert f gs in
      if L.less f g then cons f (cons g gs) else if L.less g f then cons g rest else cons g gs

  -- `imply` and `iff` of symbolic.cc.
  unfoldable pub imply : Formula Q → Formula Q → Formula Q
  imply f g = L.either (L.negate f) g

  unfoldable pub iff : Formula Q → Formula Q → Formula Q
  unfolding imply
  iff f g = L.both (imply f g) (imply g f)
