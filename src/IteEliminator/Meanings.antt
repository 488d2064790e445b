-- ===== src/IteEliminator/Meanings.antt =====
-- What the elimination relies on: the operators on expressions mean what they say and bring in no
-- variable, and sums and products of numbers may be regrouped.
use dlinear.Base.{ℕ, ◌≡◌}
use dlinear.Symbolic.Syntax.{Unary, Binary, power, Expression}
use dlinear.Symbolic.Meaning.{Structure, Env, value_of}
use dlinear.Symbolic.Fits.{ExpressionFits}
use dlinear.IteEliminator.{Operators}

pub record IsOperators {Q : Type 0} (S : Structure Q) (B : Operators Q) : Type 0 where
  pub value_of-plus :
      (env : Env Q) (d e : Expression Q)
      → value_of S env (B.plus d e) ≡ S.plus (value_of S env d) (value_of S env e)
  pub value_of-times :
      (env : Env Q) (d e : Expression Q)
      → value_of S env (B.times d e) ≡ S.times (value_of S env d) (value_of S env e)
  pub value_of-pow :
      (env : Env Q) (d e : Expression Q)
      → value_of S env (B.pow d e) ≡ S.pow (value_of S env d) (value_of S env e)
  pub value_of-make_unary :
      (env : Env Q) (op : Unary) (e : Expression Q)
      → value_of S env (B.make_unary op e) ≡ S.apply_unary op (value_of S env e)
  pub value_of-make_binary :
      (env : Env Q) (op : Binary) (d e : Expression Q)
      → value_of S env (B.make_binary op d e)
        ≡ S.apply_binary op (value_of S env d) (value_of S env e)
  pub plus-Fits :
      (n : ℕ) (d e : Expression Q)
      → ExpressionFits n d
      → ExpressionFits n e
      → ExpressionFits n (B.plus d e)
  pub times-Fits :
      (n : ℕ) (d e : Expression Q)
      → ExpressionFits n d
      → ExpressionFits n e
      → ExpressionFits n (B.times d e)
  pub pow-Fits :
      (n : ℕ) (d e : Expression Q)
      → ExpressionFits n d
      → ExpressionFits n e
      → ExpressionFits n (B.pow d e)
  pub make_unary-Fits :
      (n : ℕ) (op : Unary) (e : Expression Q)
      → ExpressionFits n e
      → ExpressionFits n (B.make_unary op e)
  pub make_binary-Fits :
      (n : ℕ) (op : Binary) (d e : Expression Q)
      → ExpressionFits n d
      → ExpressionFits n e
      → ExpressionFits n (B.make_binary op d e)

-- The numbers: a power is the function of that name, and sums and products regroup.
pub record Regroups {Q : Type 0} (S : Structure Q) : Type 0 where
  pub plus_assoc : (a b c : Q) → S.plus (S.plus a b) c ≡ S.plus a (S.plus b c)
  pub plus_zero : (a : Q) → S.plus a S.zero ≡ a
  pub times_assoc : (a b c : Q) → S.times (S.times a b) c ≡ S.times a (S.times b c)
  pub times_one : (a : Q) → S.times a S.one ≡ a
  pub power_pow : (a b : Q) → S.apply_binary power a b ≡ S.pow a b
