-- ===== src/IteEliminator/Taken.antt =====
-- The state and the point where the variable of a conditional is taken.
use dlinear.Base.{
  ℕ, ◌+◌, ◌<◌, true, not, ◌||◌, ◌≡◌, refl, [], ◌∷◌, ◌++◌, ◌==◌, All-imp, All-append, Bool-cases,
  arith,
}
use dlinear.Symbolic.Syntax.{Variable, Variables, Expression, variable, Formula}
use dlinear.Symbolic.Meaning.{Structure, IsOrdered, Env, assign, value_of, holds}
use dlinear.Symbolic.Fits.{ExpressionFits, Fits, Agree}
use dlinear.Symbolic.Weaken.{Fits-le, IdsBelow-le}
use dlinear.Symbolic.Library.{Library, IsSound, IsClosed}
use dlinear.IteEliminator.{State, fresh, says}
use dlinear.Symbolic.Ids.{in_ids}
use dlinear.IteEliminator.Steps.{IsBelow}

pub in_ids-snoc :
    (i : ℕ) (vs : Variables) (v : Variable) → in_ids i (vs ++ v ∷ []) ≡ (in_ids i vs || (i == v.id))
in_ids-snoc i [] v = ground arith
in_ids-snoc i (w ∷ vs) v = ground (arith, in_ids-snoc i vs v)

module _ {Q : Type 0} where
  -- The variable is taken.
  abbrev pub taken : State Q → State Q
  taken s = record s { variables = s.variables ++ fresh s.next ∷ []; next = s.next + 1 }

  abbrev pub define_value : ℕ → Q → Env Q → Env Q
  define_value n t env = record env { value = assign env.value n t }

  pub Agree-define_value : (n : ℕ) (t : Q) (env : Env Q) → Agree n env (define_value n t env)
  Agree-define_value n t env = record { on_truth = λ i h. refl; on_value = λ i h. ground arith }

  pub define_value_self : (n : ℕ) (t : Q) (env : Env Q) → (define_value n t env).value n ≡ t
  define_value_self n t env = ground arith

  pub IsBelow-taken : (s : State Q) → IsBelow s → IsBelow (taken s)
  IsBelow-taken s b = record {
    formulas = All-imp (λ f w. Fits-le f s.next (s.next + 1) (omega arith) w) s.added b.formulas;
    variables =
        All-append _ s.variables (fresh s.next ∷ [])
          (IdsBelow-le s.variables s.next (s.next + 1) (omega arith) b.variables) (omega arith, tt);
  }

module _ {Q : Type 0} {S : Structure Q} {L : Library Q} (ordered : IsOrdered S) (law : IsSound S L)
    (closed : IsClosed L) where
  pub equal_refl : (a : Q) → S.equal a a ≡ true
  equal_refl a = ground (arith, S.trichotomy a a, ordered.less_asym a a, Bool-cases (S.less a a))

  pub holds-says :
      (env : Env Q) (g : Formula Q) (v : Variable) (e : Expression Q)
      → holds S env (says L g v e)
        ≡ (not (holds S env g) || S.equal (env.value v.id) (value_of S env e))
  unfolding holds
  holds-says env g v e = ground (
    arith,
    law.holds-either env (L.negate g) (L.equal_to (variable v) e),
    law.holds-negate env g,
    law.holds-equal_to env (variable v) e,
  )

  pub says-Fits :
      (n : ℕ) (g : Formula Q) (v : Variable) (e : Expression Q)
      → Fits n g
      → v.id < n
      → ExpressionFits n e
      → Fits n (says L g v e)
  unfolding Fits
  says-Fits n g v e wg l we =
      closed.either-Fits n _ _ (closed.negate-Fits n g wg)
        (closed.equal_to-Fits n (variable v) e l we)
