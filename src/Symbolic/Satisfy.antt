-- ===== src/Symbolic/Satisfy.antt =====
-- A list of formulas that all hold.
use dlinear.Base.{Bool, true, ◌&&◌, ◌≡◌, List, [], ◌∷◌, ◌++◌, All, ℕ, refl, arith}
use dlinear.Symbolic.Syntax.{Formula}
use dlinear.Symbolic.Fits.{Fits, Agree, holds-Agree}
use dlinear.Symbolic.Meaning.{Structure, Env, holds}

module _ {Q : Type 0} (S : Structure Q) where
  -- Every clause is true.
  abbrev pub satisfies : Env Q → List (Formula Q) → Bool
  satisfies env [] = true
  satisfies env (f ∷ fs) = holds S env f && satisfies env fs

  pub satisfies-snoc :
      (env : Env Q) (cs : List (Formula Q)) (f : Formula Q)
      → satisfies env (cs ++ f ∷ []) ≡ (satisfies env cs && holds S env f)
  satisfies-snoc env [] f = ground arith
  satisfies-snoc env (c ∷ cs) f = ground (arith, satisfies-snoc env cs f)

  pub satisfies-Agree :
      (n : ℕ) (d e : Env Q) (cs : List (Formula Q))
      → All (λ f. Fits n f) cs
      → Agree n d e
      → satisfies d cs ≡ true
      → satisfies e cs ≡ true
  satisfies-Agree n d e [] w a h = refl
  satisfies-Agree n d e (c ∷ cs) w a h =
      ground (arith, holds-Agree S c n d e w.0 a, satisfies-Agree n d e cs w.1 a)
