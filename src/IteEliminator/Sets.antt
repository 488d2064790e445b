-- ===== src/IteEliminator/Sets.antt =====
-- Sets of variables, and the quantifier over one as a statement on all environments that differ from
-- the given one in their values only.
use dlinear.Base.{
  ℕ, ◌<◌, Bool, true, ◌||◌, ◌≡◌, refl, ◌∙◌, ap₂, subst, fun_ext, [], ◌∷◌, ltb, ◌==◌, All, All-imp,
  Bool-cases, inl, inr, arith,
}
use dlinear.Symbolic.Syntax.{Variable, Variables}
use dlinear.Symbolic.Meaning.{Structure, Env, assign, for_all}
use dlinear.Symbolic.Fits.{Ascending, IdsBelow}
use dlinear.IteEliminator.{insert_variable, insert_variables}
use dlinear.Symbolic.Ids.{in_ids}
use dlinear.IteEliminator.Steps.{Only}

in_ids-insert_variable :
    (i : ℕ) (v : Variable) (ws : Variables)
    → in_ids i (insert_variable v ws) ≡ ((i == v.id) || in_ids i ws)
unfolding insert_variable
in_ids-insert_variable i v [] = refl
in_ids-insert_variable i v (w ∷ ws) = ground (arith, in_ids-insert_variable i v ws)

pub in_ids-insert_variables :
    (i : ℕ) (vs ws : Variables) → in_ids i (insert_variables vs ws) ≡ (in_ids i vs || in_ids i ws)
unfolding insert_variables
in_ids-insert_variables i [] ws = refl
in_ids-insert_variables i (v ∷ vs) ws =
    in_ids-insert_variables i vs (insert_variable v ws)
    ∙ ground (arith, in_ids-insert_variable i v ws)

All-insert_variable :
    (P : Variable → Type 0) (v : Variable) (ws : Variables)
    → P v
    → All P ws
    → All P (insert_variable v ws)
unfolding insert_variable
All-insert_variable P v [] p h = (p, tt)
All-insert_variable P v (w ∷ ws) p h = elim (Bool-cases (ltb v.id w.id)) [
  | inl lower ↦ rw lower (p, h)
  | inr e ↦ elim (Bool-cases (ltb w.id v.id)) [
    | inl higher ↦ rw (e, higher) (h.0, All-insert_variable P v ws p h.1)
    | inr same ↦ rw (e, same) h
  ]
]

Ascending-insert_variable :
    (v : Variable) (ws : Variables) → Ascending ws → Ascending (insert_variable v ws)
unfolding insert_variable
Ascending-insert_variable v [] h = (tt, tt)
Ascending-insert_variable v (w ∷ ws) h = elim (Bool-cases (ltb v.id w.id)) [
  | inl lower ↦
      let l : v.id < w.id = ground (arith) in
      rw lower ((l, All-imp (λ u m. omega (arith, l, m)) ws h.0), h)
  | inr e ↦ elim (Bool-cases (ltb w.id v.id)) [
    | inl higher ↦
        let l : w.id < v.id = ground (arith) in
        rw (e, higher)
          (All-insert_variable (λ u. w.id < u.id) v ws l h.0, Ascending-insert_variable v ws h.1)
    | inr same ↦ rw (e, same) h
  ]
]

pub insert_variables-Ascending :
    (vs ws : Variables) → Ascending ws → Ascending (insert_variables vs ws)
unfolding insert_variables
insert_variables-Ascending [] ws h = h
insert_variables-Ascending (v ∷ vs) ws h =
    insert_variables-Ascending vs (insert_variable v ws) (Ascending-insert_variable v ws h)

pub insert_variables-IdsBelow :
    (n : ℕ) (vs ws : Variables)
    → IdsBelow n vs
    → IdsBelow n ws
    → IdsBelow n (insert_variables vs ws)
unfolding insert_variables
insert_variables-IdsBelow n [] ws hv hw = hw
insert_variables-IdsBelow n (v ∷ vs) ws hv hw =
    insert_variables-IdsBelow n vs (insert_variable v ws) hv.1
      (All-insert_variable (λ u. u.id < n) v ws hv.0 hw)

module _ {Q : Type 0} (S : Structure Q) where
  Only-all : (d e : Env Q) (p : Env Q → Bool) → Only [] d e → p d ≡ true → p e ≡ true
  Only-all d e p only h =
      let same : d ≡ e =
        ap₂ (λ t v. record { truth = t; value = v }) only.same_truth
          (fun_ext λ i. only.same_value i refl) in
      subst (λ c. p c ≡ true) same h

  pub for_all-Only :
      (vs : Variables) (p : Env Q → Bool) (d e : Env Q)
      → Only vs d e
      → for_all S vs p d ≡ true
      → p e ≡ true
  for_all-Only [] p d e only h = Only-all d e p only h
  for_all-Only (v ∷ vs) p d e only h =
      let d1 : Env Q = record d { value = assign d.value v.id (e.value v.id) } in
      let only1 : Only vs d1 e = record {
        same_truth = only.same_truth;
        same_value = λ i out. elim (Bool-cases (i == v.id)) [
          | inl here ↦ let same : i ≡ v.id = ground (arith) in rw (here, same) refl
          | inr other ↦ rw other (only.same_value i (ground (arith)))
        ];
      } in
      for_all-Only vs p d1 e only1 ((S.every_iff _).0 h (e.value v.id))

  pub for_all-from :
      (vs : Variables) (p : Env Q → Bool) (d : Env Q)
      → ((e : Env Q) → Only vs d e → p e ≡ true)
      → for_all S vs p d ≡ true
  for_all-from [] p d h = h d (record { same_truth = refl; same_value = λ i out. refl })
  for_all-from (v ∷ vs) p d h = (S.every_iff _).1 (λ x. for_all-from vs p _ (λ e only. h e (record {
    same_truth = only.same_truth;
    same_value = λ i out. (let rest = only.same_value i (ground (arith)) in ground (arith));
  })))
