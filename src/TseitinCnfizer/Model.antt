-- ===== src/TseitinCnfizer/Model.antt =====
-- Models of the definitions, and how they grow.
use dlinear.Base.{ℕ, ◌+◌, ◌≤◌, ◌<◌, Bool, true, ◌≡◌, refl, List, [], ◌∷◌, All, All-imp, arith}
use dlinear.Symbolic.Syntax.{Variable, Formula}
use dlinear.Symbolic.Meaning.{Structure, Env, holds}
use dlinear.Symbolic.Fits.{Fits, Agree, holds-Agree}
use dlinear.Symbolic.Weaken.{Fits-le}
use dlinear.PlaistedGreenbaum.Fresh.{Agree-refl, Agree-trans, define, Agree-define}
use dlinear.TseitinCnfizer.{State, emplace}
use dlinear.TseitinCnfizer.Keys.{NoKey, IsBelow, All-emplace, consistent, consistent-emplace}

module _ {Q : Type 0} where
  -- The entries so far stand below the counter.
  abbrev pub MapFits : ℕ → List (Variable × Formula Q) → Type 0
  MapFits n m = All (λ e. (e.0.id < n) × Fits n e.1) m

  pub MapFits-le : (n k : ℕ) (m : List (Variable × Formula Q)) → n ≤ k → MapFits n m → MapFits k m
  MapFits-le n k m l h = All-imp (λ e (a, b). (omega (arith, a, l), Fits-le e.1 n k l b)) m h

  pub MapFits-IsBelow : (s : State Q) → MapFits s.next s.map → IsBelow s
  MapFits-IsBelow s h = All-imp (λ e (a, b). (tt, a)) s.map h

  pub consistent-Agree :
      (S : Structure Q) (n : ℕ) (d e : Env Q) (m : List (Variable × Formula Q))
      → MapFits n m
      → Agree n d e
      → consistent S d m ≡ true
      → consistent S e m ≡ true
  consistent-Agree S n d e [] w a h = refl
  consistent-Agree S n d e ((b, f) ∷ m) w a h = ground (
    arith,
    a.on_truth b.id w.0.0,
    holds-Agree S f n d e w.0.1 a,
    consistent-Agree S n d e m w.1 a,
  )

-- `d` is a model of the entries of `s`.
pub record IsModel {Q : Type 0} (S : Structure Q) (s : State Q) (d : Env Q) : Type 0 where
  pub fits : MapFits s.next s.map
  pub satisfied : consistent S d s.map ≡ true

-- `e` is a model of the entries of `s'`, and differs from `d` at variables newer than `s` only.
pub record Extends {Q : Type 0} (S : Structure Q) (s s' : State Q) (d e : Env Q) : Type 0 where
  pub agree : Agree s.next d e
  pub grows : s.next ≤ s'.next
  pub model : IsModel S s' e

module _ {Q : Type 0} (S : Structure Q) where
  pub Extends-refl : (s : State Q) (d : Env Q) → IsModel S s d → Extends S s s d d
  Extends-refl s d m = record { agree = Agree-refl s.next d; grows = omega arith; model = m }

  pub IsModel-next :
      (s : State Q) (d : Env Q) (t : Bool)
      → IsModel S s d
      → IsModel S (record s { next = s.next + 1 }) (define s.next t d)
  IsModel-next s d t m = record {
    fits = MapFits-le s.next (s.next + 1) s.map (omega arith) m.fits;
    satisfied = consistent-Agree S s.next d _ s.map m.fits (Agree-define s.next t d) m.satisfied;
  }

  -- A definition of a new variable, which has its value.
  pub IsModel-entry :
      (s : State Q) (d : Env Q) (b : Variable) (g : Formula Q)
      → NoKey b.id s.map
      → b.id < s.next
      → Fits s.next g
      → d.truth b.id ≡ holds S d g
      → IsModel S s d
      → IsModel S (record s { map = emplace b g s.map }) d
  IsModel-entry s d b g far l w same m = record {
    fits = All-emplace _ b g s.map m.fits (l, w);
    satisfied = (let old = m.satisfied in ground (arith, consistent-emplace S d b g s.map far));
  }

  pub Extends-trans :
      (s m s' : State Q) (b c d : Env Q)
      → Extends S s m b c
      → Extends S m s' c d
      → Extends S s s' b d
  Extends-trans s m s' b c d x y = record {
    agree = Agree-trans s.next m.next b c d x.grows x.agree y.agree;
    grows = (let g = x.grows in let h = y.grows in omega arith);
    model = y.model;
  }
