-- ===== src/Symbolic/Meaning.antt =====
-- The meaning of expressions and formulas. Numbers, their order, the functions on them and the
-- quantifier over them are a parameter.
use Prim.Native.String.{String}
use dlinear.Base.{
  ℕ, Bool, true, false, not, ◌&&◌, ◌||◌, List, [], ◌∷◌, ◌≡◌, ◌↔◌, if◌then◌else◌, ◌==◌,
}
use dlinear.Symbolic.Syntax.{
  Variables, Unary, Binary, Expression, constant, variable, addition, multiplication, unary, binary,
  if_then_else, uninterpreted, Terms, no_term, term, Factors, no_factor, factor, Formula, bot, top,
  prop, eq, neq, gt, geq, lt, leq, conj, disj, neg, forall, Formulas, nil, cons,
}

-- What a number is to the solver: `mpq_class` and the functions of the symbolic library.
pub record Structure (Q : Type 0) : Type 0 where
  pub equal : Q → Q → Bool
  pub less : Q → Q → Bool
  pub zero : Q
  pub one : Q
  pub plus : Q → Q → Q
  pub minus : Q → Q → Q
  pub times : Q → Q → Q
  pub half : Q
  pub pow : Q → Q → Q
  pub apply_unary : Unary → Q → Q
  pub apply_binary : Binary → Q → Q → Q
  pub apply_uninterpreted : String → List Q → Q
  -- The property holds of every number.
  pub every : (Q → Bool) → Bool
  pub trichotomy : (a b : Q) → equal a b ≡ (not (less a b) && not (less b a))
  pub every_iff : (p : Q → Bool) → (every p ≡ true) ↔ ((x : Q) → p x ≡ true)

-- The order of the numbers is total, and `mpq_class` compares values.
pub record IsOrdered {Q : Type 0} (S : Structure Q) : Type 0 where
  pub eq_of_equal : (a b : Q) → S.equal a b ≡ true → a ≡ b
  pub less_asym : (a b : Q) → S.less a b ≡ true → S.less b a ≡ false
  pub le_trans : (a b c : Q) → S.less b a ≡ false → S.less c b ≡ false → S.less c a ≡ false

pub record Env (Q : Type 0) : Type 0 where
  pub truth : ℕ → Bool
  pub value : ℕ → Q

abbrev pub assign {ℓ} : {A : Type ℓ} → (ℕ → A) → ℕ → A → ℕ → A
assign f i a j = if j == i then a else f j

module _ {Q : Type 0} (S : Structure Q) where
  abbrev pub values : Env Q → Variables → List Q
  values env [] = []
  values env (v ∷ vs) = env.value v.id ∷ values env vs

  -- `p` holds however the variables are valued.
  abbrev pub for_all : Variables → (Env Q → Bool) → Env Q → Bool
  for_all [] p env = p env
  for_all (v ∷ vs) p env =
      S.every (λ x. for_all vs p (record env { value = assign env.value v.id x }))

  unfoldable mutual
    pub value_of : Env Q → Expression Q → Q
    value_of env (constant c) = c
    value_of env (variable v) = env.value v.id
    value_of env (addition c ts) = S.plus c (sum_of env ts)
    value_of env (multiplication c fs) = S.times c (product_of env fs)
    value_of env (unary op e) = S.apply_unary op (value_of env e)
    value_of env (binary op d e) = S.apply_binary op (value_of env d) (value_of env e)
    value_of env (if_then_else f d e) = if holds env f then value_of env d else value_of env e
    value_of env (uninterpreted name vs) = S.apply_uninterpreted name (values env vs)

    pub sum_of : Env Q → Terms Q → Q
    sum_of env no_term = S.zero
    sum_of env (term e c ts) = S.plus (S.times c (value_of env e)) (sum_of env ts)

    pub product_of : Env Q → Factors Q → Q
    product_of env no_factor = S.one
    product_of env (factor e d fs) =
        S.times (S.pow (value_of env e) (value_of env d)) (product_of env fs)

    pub holds : Env Q → Formula Q → Bool
    holds env bot = false
    holds env top = true
    holds env (prop v) = env.truth v.id
    holds env (eq d e) = S.equal (value_of env d) (value_of env e)
    holds env (neq d e) = not (S.equal (value_of env d) (value_of env e))
    holds env (gt d e) = S.less (value_of env e) (value_of env d)
    holds env (geq d e) = not (S.less (value_of env d) (value_of env e))
    holds env (lt d e) = S.less (value_of env d) (value_of env e)
    holds env (leq d e) = not (S.less (value_of env e) (value_of env d))
    holds env (conj fs) = all_hold env fs
    holds env (disj fs) = some_holds env fs
    holds env (neg f) = not (holds env f)
    holds env (forall vs f) = for_all vs (λ e. holds e f) env

    pub all_hold : Env Q → Formulas Q → Bool
    all_hold env nil = true
    all_hold env (cons f fs) = holds env f && all_hold env fs

    pub some_holds : Env Q → Formulas Q → Bool
    some_holds env nil = false
    some_holds env (cons f fs) = holds env f || some_holds env fs
