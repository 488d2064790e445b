-- ===== src/Symbolic/Quantifier.antt =====
-- Facts about a property that holds however some variables are valued.
use dlinear.Base.{fun_ext, ap, false, not, ◌||◌, ◌&&◌, Bool, true, ◌≡◌, refl, [], ◌∷◌, arith}
use dlinear.Symbolic.Syntax.{Variables}
use dlinear.Symbolic.Meaning.{Structure, Env, for_all}

module _ {Q : Type 0} (S : Structure Q) where
  -- Valuing a quantified variable leaves the propositions alone.
  pub for_all-join :
      (vs : Variables) (p q r : Env Q → Bool) (env : Env Q)
      → ((e : Env Q) → e.truth ≡ env.truth → p e ≡ true → q e ≡ true → r e ≡ true)
      → for_all S vs p env ≡ true
      → for_all S vs q env ≡ true
      → for_all S vs r env ≡ true
  for_all-join [] p q r env h hp hq = h env refl hp hq
  for_all-join (v ∷ vs) p q r env h hp hq =
      (S.every_iff _).1
        (λ x. for_all-join vs p q r _ h ((S.every_iff _).0 hp x) ((S.every_iff _).0 hq x))

  pub for_all-imp :
      (vs : Variables) (p q : Env Q → Bool) (env : Env Q)
      → ((e : Env Q) → e.truth ≡ env.truth → p e ≡ true → q e ≡ true)
      → for_all S vs p env ≡ true
      → for_all S vs q env ≡ true
  for_all-imp vs p q env h hp = for_all-join vs p p q env (λ e a b _. h e a b) hp hp

  pub for_all-true :
      (vs : Variables) (p : Env Q → Bool) (env : Env Q)
      → ((e : Env Q) → p e ≡ true)
      → for_all S vs p env ≡ true
  for_all-true [] p env h = h env
  for_all-true (v ∷ vs) p env h = (S.every_iff _).1 (λ x. for_all-true vs p _ h)

  pub for_all-cong :
      (vs : Variables) (p q : Env Q → Bool) (env : Env Q)
      → ((e : Env Q) → e.truth ≡ env.truth → p e ≡ q e)
      → for_all S vs p env ≡ for_all S vs q env
  for_all-cong [] p q env h = h env refl
  for_all-cong (v ∷ vs) p q env h = ap S.every (fun_ext λ x. for_all-cong vs p q _ h)

  -- A disjunct that no quantified variable stands in comes out of the quantifier.
  pub for_all-guard :
      (vs : Variables) (b : Bool) (p : Env Q → Bool) (env : Env Q)
      → for_all S vs (λ e. not b || p e) env ≡ (not b || for_all S vs p env)
  for_all-guard vs true p env = refl
  for_all-guard vs false p env = for_all-true vs _ env (λ e. refl)

  bool_iff : (a b : Bool) → (a ≡ true → b ≡ true) → (b ≡ true → a ≡ true) → a ≡ b
  bool_iff a b f g = ground (arith, f, g)

  pub for_all-and :
      (vs : Variables) (p q : Env Q → Bool) (env : Env Q)
      → for_all S vs (λ e. p e && q e) env ≡ (for_all S vs p env && for_all S vs q env)
  for_all-and vs p q env =
      let first = for_all-imp vs (λ e. p e && q e) p env (λ e _ h. ground (arith)) in
      let second = for_all-imp vs (λ e. p e && q e) q env (λ e _ h. ground (arith)) in
      let both = for_all-join vs p q (λ e. p e && q e) env (λ e _ h k. ground (arith)) in
      bool_iff _ _ (λ h. ground (arith, first h, second h))
        (λ h. both (ground (arith)) (ground (arith)))
