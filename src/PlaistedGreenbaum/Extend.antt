-- ===== src/PlaistedGreenbaum/Extend.antt =====
-- A step that extends the definitions and clauses, with the model that it comes with.
use dlinear.Base.{◌+◌, ◌≤◌, Bool, true, ◌≡◌, [], ◌∷◌, All-append, arith}
use dlinear.Symbolic.Syntax.{Formula}
use dlinear.Symbolic.Meaning.{Structure, Env, holds}
use dlinear.Symbolic.Fits.{Fits, Agree}
use dlinear.PlaistedGreenbaum.{State, declare, emit}
use dlinear.PlaistedGreenbaum.Sound.{Satisfies}
use dlinear.PlaistedGreenbaum.Fresh.{
  AuxFits, AuxFits-le, Agree-refl, Agree-trans, define, Agree-define, Satisfies-Agree,
}

-- `e` is a model of the clauses of `s'`, and differs from `d` at variables newer than `s` only.
pub record Extends {Q : Type 0} (S : Structure Q) (s s' : State Q) (d e : Env Q) : Type 0 where
  pub agree : Agree s.next d e
  pub grows : s.next ≤ s'.next
  pub fits : AuxFits s'.next s'.aux
  pub satisfied : Satisfies S e s'.aux

-- The clauses so far, as a state to go on from.
pub record IsModel {Q : Type 0} (S : Structure Q) (s : State Q) (d : Env Q) : Type 0 where
  pub fits : AuxFits s.next s.aux
  pub satisfied : Satisfies S d s.aux

module _ {Q : Type 0} (S : Structure Q) where
  -- The new variable is given a value.
  pub IsModel-declare :
      (s : State Q) (d : Env Q) (t : Bool)
      → IsModel S s d
      → IsModel S (declare s) (define s.next t d)
  IsModel-declare s d t m = record {
    fits = AuxFits-le s.next (s.next + 1) s.aux (omega arith) m.fits;
    satisfied = Satisfies-Agree S s.next d _ s.aux m.fits (Agree-define s.next t d) m.satisfied;
  }

  pub IsModel-emit :
      (s : State Q) (d : Env Q) (f : Formula Q)
      → IsModel S s d
      → Fits s.next f
      → holds S d f ≡ true
      → IsModel S (emit f s) d
  IsModel-emit s d f m w h = record {
    fits = All-append _ s.aux (f ∷ []) m.fits (w, tt);
    satisfied = All-append _ s.aux (f ∷ []) m.satisfied (h, tt);
  }

  pub Extends-refl : (s : State Q) (d : Env Q) → IsModel S s d → Extends S s s d d
  Extends-refl s d m = record {
    agree = Agree-refl s.next d;
    grows = omega arith;
    fits = m.fits;
    satisfied = m.satisfied;
  }

  pub Extends-IsModel : (s s' : State Q) (d e : Env Q) → Extends S s s' d e → IsModel S s' e
  Extends-IsModel s s' d e x = record { fits = x.fits; satisfied = x.satisfied }

  -- First to `m` with environment `c`, then on to `s'`.
  pub Extends-trans :
      (s m s' : State Q) (b c d : Env Q)
      → Agree s.next b c
      → s.next ≤ m.next
      → Extends S m s' c d
      → Extends S s s' b d
  Extends-trans s m s' b c d a l x = record {
    agree = Agree-trans s.next m.next b c d l a x.agree;
    grows = (let g = x.grows in omega arith);
    fits = x.fits;
    satisfied = x.satisfied;
  }
