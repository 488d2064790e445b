-- ===== src/SatSolver/Clauses/Cover.antt =====
-- The literals that are kept satisfy every main clause that the assignment satisfies.
use dlinear.Base.{
  ℕ, zero, suc, ◌+◌, ◌≤◌, Bool, true, false, ◌||◌, ◌≡◌, refl, sym, ◌∙◌, ap, List, [], ◌∷◌, ◌++◌,
  drop, All, Option, if◌then◌else◌, ◌==◌, Bool-cases, inl, inr, arith, ℤ, pos, negsuc, ==ℤ, ==ℤ_iff,
  is_zero_ℤ,
}
use dlinear.SatSolver.Clauses.{
  Clauses, member, remove, assigned, count, is_required, keep_required, get_main_active_literals,
}

abbrev pub occurs : ℕ → List ℕ → Bool
occurs c [] = false
occurs c (d ∷ ds) = (c == d) || occurs c ds

abbrev pub Distinct : List ℤ → Type 0
Distinct [] = Unit
Distinct (k ∷ ks) = (member k ks ≡ false) × Distinct ks

-- The clause is stored at `c`, and every literal of it is looked up there.
pub record IsMain (s : Clauses) (c : ℕ) (clause : List ℤ) : Type 0 where
  pub rest : List ℤ
  pub stored : drop c s.main_clauses_copy ≡ clause ++ pos 0 ∷ rest
  pub no_zero : All (λ i. is_zero_ℤ i ≡ false) clause
  pub found : All (λ i. occurs c (s.main_clause_lookup i) ≡ true) clause

-- The number of literals of the clause that are in the set.
abbrev pub hits : List ℤ → List ℤ → ℕ
hits lits [] = 0
hits lits (k ∷ ks) = if member k lits then suc (hits lits ks) else hits lits ks

count-hits :
    (lits clause rest : List ℤ)
    → All (λ i. is_zero_ℤ i ≡ false) clause
    → count lits (clause ++ pos 0 ∷ rest) ≡ hits lits clause
unfolding count
count-hits lits [] rest h = refl
count-hits lits (pos zero ∷ ks) rest h = ground (arith)
count-hits lits (pos (suc n) ∷ ks) rest h = ground (arith, count-hits lits ks rest h.1)
count-hits lits (negsuc n ∷ ks) rest h = ground (arith, count-hits lits ks rest h.1)

member-remove :
    (k i : ℤ) (lits : List ℤ) → (==ℤ k i ≡ false) → member k (remove i lits) ≡ member k lits
unfolding member remove
member-remove k i [] h = refl
member-remove k i (j ∷ lits) h = ground (arith, member-remove k i lits h, ==ℤ_iff i j, ==ℤ_iff k j)

-- A literal that the clause does not have is no loss to it.
hits-remove_other :
    (i : ℤ) (lits clause : List ℤ)
    → member i clause ≡ false
    → hits (remove i lits) clause ≡ hits lits clause
unfolding member
hits-remove_other i lits [] h = refl
hits-remove_other i lits (k ∷ ks) h =
    ground (arith, hits-remove_other i lits ks, member-remove k i lits, ==ℤ_iff i k, ==ℤ_iff k i)

-- The loss of one literal is the loss of at most one hit.
hits-remove :
    (i : ℤ) (lits clause : List ℤ)
    → Distinct clause
    → hits lits clause ≤ hits (remove i lits) clause + 1
unfolding member
hits-remove i lits [] h = ground (arith)
hits-remove i lits (k ∷ ks) h = ground (
  arith,
  hits-remove i lits ks h.1,
  hits-remove_other i lits ks,
  member-remove k i lits,
  ==ℤ_iff k i,
)

required-hit :
    (copy lits : List ℤ) (c : ℕ) (ds : List ℕ)
    → occurs c ds ≡ true
    → count lits (drop c copy) ≡ 1
    → is_required copy lits ds ≡ true
unfolding is_required
required-hit copy lits c [] h e = ground (arith)
required-hit copy lits c (d ∷ ds) h e = elim (Bool-cases (c == d)) [
  | inl same ↦
      let here : c ≡ d = ground (arith) in
      let one : count lits (drop d copy) ≡ 1 = ap (λ n. count lits (drop n copy)) (sym here) ∙ e in
      ground (arith)
  | inr other ↦ ground (arith, required-hit copy lits c ds)
]

All-member :
    (P : ℤ → Bool) (i : ℤ) (ks : List ℤ)
    → All (λ k. P k ≡ true) ks
    → member i ks ≡ true
    → P i ≡ true
unfolding member
All-member P i [] h m = ground (arith)
All-member P i (k ∷ ks) h m = elim (Bool-cases (==ℤ i k)) [
  | inl same ↦ ap P ((==ℤ_iff i k).0 same) ∙ h.0
  | inr other ↦ All-member P i ks h.1 (ground (arith))
]

-- One round of the loop leaves the clause a hit.
step-hits :
    (s : Clauses) (c : ℕ) (clause lits : List ℤ) (i : ℤ)
    → IsMain s c clause
    → Distinct clause
    → is_required s.main_clauses_copy lits (s.main_clause_lookup i) ≡ false
    → 1 ≤ hits lits clause
    → 1 ≤ hits (remove i lits) clause
step-hits s c clause lits i main distinct idle h = elim (Bool-cases (member i clause)) [
  | inr apart ↦ omega (arith, hits-remove_other i lits clause apart, h)
  | inl inside ↦
      let listed = All-member (λ k. occurs c (s.main_clause_lookup k)) i clause main.found inside in
      let counted : count lits (drop c s.main_clauses_copy) ≡ hits lits clause =
        ap (count lits) main.stored ∙ count-hits lits clause main.rest main.no_zero in
      let alone = required-hit s.main_clauses_copy lits c (s.main_clause_lookup i) listed in
      ground (arith, alone, counted, hits-remove i lits clause distinct)
]

keep_required-hits :
    (s : Clauses) (c : ℕ) (clause todo lits : List ℤ)
    → IsMain s c clause
    → Distinct clause
    → 1 ≤ hits lits clause
    → 1 ≤ hits (keep_required s todo lits) clause
unfolding keep_required
keep_required-hits s c clause [] lits main distinct h = h
keep_required-hits s c clause (i ∷ rest) lits main distinct h =
    elim (Bool-cases (is_required s.main_clauses_copy lits (s.main_clause_lookup i))) [
      | inl needed ↦ rw (needed) (keep_required-hits s c clause rest lits main distinct h)
      | inr idle ↦ rw (idle) (
          keep_required-hits s c clause rest (remove i lits) main distinct
            (step-hits s c clause lits i main distinct idle h))
    ]

-- A main clause, stored with all its lookups, that has no literal twice and that the assignment
-- satisfies, is satisfied by the literals that `GetMainActiveLiterals` keeps.
pub get_main_active_literals-hits :
    (s : Clauses) (c : ℕ) (clause : List ℤ) (value : ℕ → Option Bool) (n : ℕ)
    → IsMain s c clause
    → Distinct clause
    → 1 ≤ hits (assigned value n) clause
    → 1 ≤ hits (get_main_active_literals s value n) clause
unfolding get_main_active_literals
get_main_active_literals-hits s c clause value n main distinct h =
    keep_required-hits s c clause (assigned value n) (assigned value n) main distinct h
