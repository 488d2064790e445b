-- ===== src/Symbolic/Syntax.antt =====
-- The variables, expressions and formulas that the program reads through `get_kind` and the
-- accessors of the symbolic library (`FormulaKind`, `Variable::Type`). A set of formulas is the
-- list that its iteration order gives.
use Prim.Native.String.{String}
use dlinear.Base.{ℕ, List}

-- `Variable::Type`.
pub data VarType : Type 0 where
  continuous integer binary boolean : VarType

-- Variables are compared by their identifier alone.
pub record Variable : Type 0 where
  pub id : ℕ
  pub type : VarType

-- A set of variables, in the order of their identifiers.
abbrev pub Variables : Type 0
Variables = List Variable

pub data Unary : Type 0 where
  log abs exp sqrt sin cos tan asin acos atan sinh cosh tanh : Unary

pub data Binary : Type 0 where
  division power atan2 min max : Binary

-- Expressions over constants of `Q`, and formulas over them.
mutual
  pub data Expression (Q : Type 0) : Type 0 where
    constant : Q → Expression Q
    variable : Variable → Expression Q
    addition : Q → Terms Q → Expression Q
    multiplication : Q → Factors Q → Expression Q
    unary : Unary → Expression Q → Expression Q
    binary : Binary → Expression Q → Expression Q → Expression Q
    if_then_else : Formula Q → Expression Q → Expression Q → Expression Q
    uninterpreted : String → Variables → Expression Q

  -- The map from expressions to coefficients of an addition.
  pub data Terms (Q : Type 0) : Type 0 where
    no_term : Terms Q
    term : Expression Q → Q → Terms Q → Terms Q

  -- The map from bases to exponents of a multiplication.
  pub data Factors (Q : Type 0) : Type 0 where
    no_factor : Factors Q
    factor : Expression Q → Expression Q → Factors Q → Factors Q

  -- The constructors of `FormulaKind`, in its order.
  pub data Formula (Q : Type 0) : Type 0 where
    bot top : Formula Q
    prop : Variable → Formula Q
    eq neq gt geq lt leq : Expression Q → Expression Q → Formula Q
    conj disj : Formulas Q → Formula Q
    neg : Formula Q → Formula Q
    forall : Variables → Formula Q → Formula Q

  pub data Formulas (Q : Type 0) : Type 0 where
    nil : Formulas Q
    cons : Formula Q → Formulas Q → Formulas Q
