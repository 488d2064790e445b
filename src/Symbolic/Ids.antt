-- ===== src/Symbolic/Ids.antt =====
-- Which identifiers a list of variables has, and how many.
use dlinear.Base.{
  ℕ, suc, ◌≤◌, Bool, true, false, ◌||◌, ◌≡◌, List, [], ◌∷◌, length, if◌then◌else◌, ◌==◌, All,
  Bool-cases, inl, inr, arith,
}
use dlinear.Symbolic.Syntax.{Variables}

abbrev pub in_ids : ℕ → Variables → Bool
in_ids i [] = false
in_ids i (v ∷ vs) = (i == v.id) || in_ids i vs

abbrev pub contains : ℕ → List ℕ → Bool
contains i [] = false
contains i (j ∷ js) = (i == j) || contains i js

abbrev pub Different : List ℕ → Type 0
Different [] = Unit
Different (i ∷ is) = (contains i is ≡ false) × Different is

abbrev remove : ℕ → Variables → Variables
remove i [] = []
remove i (v ∷ vs) = let rest = remove i vs in if i == v.id then vs else v ∷ rest

length-remove :
    (i : ℕ) (vs : Variables) → in_ids i vs ≡ true → length vs ≡ suc (length (remove i vs))
length-remove i [] h = ground (arith)
length-remove i (v ∷ vs) h = ground (arith, length-remove i vs)

in_ids-remove :
    (i j : ℕ) (vs : Variables)
    → (j == i) ≡ false
    → in_ids j vs ≡ true
    → in_ids j (remove i vs) ≡ true
in_ids-remove i j [] ne h = h
in_ids-remove i j (v ∷ vs) ne h = ground (arith, in_ids-remove i j vs ne)

-- What stands in the list without an identifier that is not among them.
All-remove :
    (i : ℕ) (is : List ℕ) (vs : Variables)
    → contains i is ≡ false
    → All (λ j. in_ids j vs ≡ true) is
    → All (λ j. in_ids j (remove i vs) ≡ true) is
All-remove i [] vs h w = tt
All-remove i (j ∷ js) vs h w =
    (in_ids-remove i j vs (ground (arith)) w.0, All-remove i js vs (ground (arith)) w.1)

-- Different identifiers of variables are no more than the variables.
pub length-in_ids :
    (is : List ℕ) (vs : Variables)
    → Different is
    → All (λ j. in_ids j vs ≡ true) is
    → length is ≤ length vs
length-in_ids [] vs d w = omega arith
length-in_ids (i ∷ is) vs d w =
    let rest = length-in_ids is (remove i vs) d.1 (All-remove i is vs d.0 w.1) in
    omega (arith, rest, length-remove i vs w.0)

-- As many different identifiers as variables are those of all of them.
pub contains-in_ids :
    (is : List ℕ) (vs : Variables) (i : ℕ)
    → Different is
    → All (λ j. in_ids j vs ≡ true) is
    → length is ≡ length vs
    → in_ids i vs ≡ true
    → contains i is ≡ true
contains-in_ids is vs i d w same there = elim (Bool-cases (contains i is)) [
  | inl h ↦ h
  | inr h ↦
      let fewer = length-in_ids is (remove i vs) d (All-remove i is vs h w) in
      absurd (omega (arith, fewer, same, length-remove i vs there))
]
