-- ===== src/Box/Access.antt =====
-- Reading a box after it is written at a variable, or after a variable is added.
use dlinear.Base.{
  ℕ, zero, suc, ◌+◌, ◌≤◌, ◌<◌, Bool, true, false, ◌≡◌, refl, ap, none, some, List, [], ◌∷◌, ◌++◌,
  ◌==◌, length, length-append, Bool-cases, Option-cases, inl, inr, arith,
}
use dlinear.Symbolic.Syntax.{Variable, VarType, continuous, integer, binary, boolean}
use dlinear.Symbolic.Meaning.{Structure}
use dlinear.Box.Intervals.{Interval}
use dlinear.Box.{Box, resize, set, get_elem?, index_from, index, has_variable, at, assign_at, add}

module _ {ℓ} {A : Type ℓ} where
  pub get_elem?-set :
      (i : ℕ) (xs : List A) (x y : A) → get_elem? xs i ≡ some x → get_elem? (set xs i y) i ≡ some y
  unfolding get_elem? set
  get_elem?-set i [] x y h = ground (arith)
  get_elem?-set zero (z ∷ xs) x y h = refl
  get_elem?-set (suc i) (z ∷ xs) x y h = get_elem?-set i xs x y h

  pub get_elem?-set_other :
      (i j : ℕ) (xs : List A) (y : A) → (i == j) ≡ false → get_elem? (set xs i y) j ≡ get_elem? xs j
  unfolding get_elem? set
  get_elem?-set_other i j [] y h = refl
  get_elem?-set_other zero zero (z ∷ xs) y h = ground (arith)
  get_elem?-set_other zero (suc j) (z ∷ xs) y h = refl
  get_elem?-set_other (suc i) zero (z ∷ xs) y h = refl
  get_elem?-set_other (suc i) (suc j) (z ∷ xs) y h = get_elem?-set_other i j xs y (ground (arith))

  length-set : (i : ℕ) (xs : List A) (y : A) → length (set xs i y) ≡ length xs
  unfolding set
  length-set i [] y = refl
  length-set zero (x ∷ xs) y = refl
  length-set (suc i) (x ∷ xs) y = omega (arith, length-set i xs y)

  length-resize : (d : A) (n : ℕ) (xs : List A) → n ≤ length (resize d n xs)
  unfolding resize
  length-resize d zero xs = omega arith
  length-resize d (suc n) [] = omega (arith, length-resize d n [])
  length-resize d (suc n) (x ∷ xs) = omega (arith, length-resize d n xs)

  pub get_elem?-some : (i : ℕ) (xs : List A) → i < length xs → (x : A) × (get_elem? xs i ≡ some x)
  unfolding get_elem?
  get_elem?-some i [] h = absurd (omega (arith, h))
  get_elem?-some zero (x ∷ xs) h = (x, refl)
  get_elem?-some (suc i) (x ∷ xs) h = get_elem?-some i xs (omega (arith, h))

pub index_from-le :
    (n j : ℕ) (v : Variable) (vs : List Variable) → index_from n v vs ≡ some j → n ≤ j
unfolding index_from
index_from-le n j v [] e = ground (arith)
index_from-le n j v (w ∷ vs) e = ground (arith, index_from-le (suc n) j v vs)

pub index_from-lt :
    (n j : ℕ) (v : Variable) (vs : List Variable) → index_from n v vs ≡ some j → j < n + length vs
unfolding index_from
index_from-lt n j v [] e = ground (arith)
index_from-lt n j v (w ∷ vs) e = ground (arith, index_from-lt (suc n) j v vs)

-- Two variables at one place are the same.
index_from-same :
    (n j : ℕ) (v w : Variable) (vs : List Variable)
    → index_from n v vs ≡ some j
    → index_from n w vs ≡ some j
    → v.id ≡ w.id
unfolding index_from
index_from-same n j v w [] e e' = ground (arith)
index_from-same n j v w (u ∷ vs) e e' = ground (
  arith,
  index_from-same (suc n) j v w vs,
  index_from-le (suc n) j v vs,
  index_from-le (suc n) j w vs,
)

pub index_from-append :
    (n j : ℕ) (v : Variable) (vs ws : List Variable)
    → index_from n v vs ≡ some j
    → index_from n v (vs ++ ws) ≡ some j
unfolding index_from
index_from-append n j v [] ws e = ground (arith)
index_from-append n j v (u ∷ vs) ws e = ground (arith, index_from-append (suc n) j v vs ws)

index_from-snoc :
    (n : ℕ) (v : Variable) (vs : List Variable) → (j : ℕ) × (index_from n v (vs ++ v ∷ []) ≡ some j)
unfolding index_from
index_from-snoc n v [] = (n, ground (arith))
index_from-snoc n v (u ∷ vs) = elim (Bool-cases (v.id == u.id)) [
  | inl same ↦ (n, ground (arith))
  | inr other ↦ let (j, e) = index_from-snoc (suc n) v vs in (j, ground (arith))
]

module _ {Q : Type 0} where
  -- Every variable has an interval.
  abbrev pub IsShaped : Box Q → Type 0
  IsShaped b = length b.variables ≤ length b.values

  pub at-some :
      (b : Box Q) (v : Variable)
      → IsShaped b
      → has_variable b v ≡ true
      → (iv : Interval Q) × (at b v ≡ some iv)
  unfolding at index has_variable
  at-some b v shaped h = elim (Option-cases (index_from 0 v b.variables)) [
    | inl e ↦ ground (arith)
    | inr (i, e) ↦
        let small = index_from-lt 0 i v b.variables e in
        let (iv, found) = get_elem?-some i b.values (omega (arith, small, shaped)) in
        (iv, ground (arith))
  ]

  -- An interval that is written is read back.
  pub at-assign_at :
      (b : Box Q) (v : Variable) (new : Interval Q)
      → IsShaped b
      → has_variable b v ≡ true
      → at (assign_at b v new) v ≡ some new
  unfolding at index has_variable assign_at
  at-assign_at b v new shaped h = elim (Option-cases (index_from 0 v b.variables)) [
    | inl e ↦ ground (arith)
    | inr (i, e) ↦
        let small = index_from-lt 0 i v b.variables e in
        let (iv, found) = get_elem?-some i b.values (omega (arith, small, shaped)) in
        ground (arith, get_elem?-set i b.values iv new found)
  ]

  -- The others keep theirs.
  pub at-assign_at_other :
      (b : Box Q) (v w : Variable) (new : Interval Q)
      → (v.id == w.id) ≡ false
      → at (assign_at b v new) w ≡ at b w
  unfolding at index assign_at
  at-assign_at_other b v w new ne = elim (Option-cases (index_from 0 v b.variables)) [
    | inl e ↦ ground (arith)
    | inr (i, e) ↦ elim (Option-cases (index_from 0 w b.variables)) [
      | inl e' ↦ ground (arith)
      | inr (j, e') ↦ elim (Bool-cases (i == j)) [
        | inl same ↦
            let here : i ≡ j = ground (arith) in
            let one = index_from-same 0 j v w b.variables (rw (← here) e) e' in ground (arith)
        | inr apart ↦ ground (arith, get_elem?-set_other i j b.values new apart)
      ]
    ]
  ]

  pub assign_at-variables :
      (b : Box Q) (v : Variable) (new : Interval Q) → (assign_at b v new).variables ≡ b.variables
  unfolding assign_at index
  assign_at-variables b v new = ground (arith)

  pub assign_at-IsShaped :
      (b : Box Q) (v : Variable) (new : Interval Q) → IsShaped b → IsShaped (assign_at b v new)
  unfolding assign_at index
  assign_at-IsShaped b v new shaped = elim (Option-cases (index_from 0 v b.variables)) [
    | inl e ↦ ground (arith)
    | inr (i, e) ↦ ground (arith, length-set i b.values new)
  ]

  pub has_variable-assign_at :
      (b : Box Q) (v w : Variable) (new : Interval Q)
      → has_variable (assign_at b v new) w ≡ has_variable b w
  unfolding has_variable index
  has_variable-assign_at b v w new =
      ap (λ vs. elim (index_from 0 w vs) as (λ _. Bool) [ none ↦ false | some _ ↦ true ])
        (assign_at-variables b v new)

module _ {Q : Type 0} (S : Structure Q) (entire : Interval Q) where
  added :
      (v : Variable) (b b' : Box Q) (t : VarType)
      → v.type ≡ t
      → add S entire v b ≡ some b'
      → (b'.variables ≡ b.variables ++ v ∷ []) × IsShaped b'
  unfolding add
  added v b b' integer is h = ground (arith)
  added v b b' binary is h = ground (arith)
  added v b b' continuous is h =
      let n = length b.variables in
      ground (arith, length-resize entire (n + 1) b.values, length-append b.variables (v ∷ []))
  added v b b' boolean is h =
      let n = length b.variables in
      let values = resize entire (n + 1) b.values in
      ground (
        arith,
        length-resize entire (n + 1) b.values,
        length-append b.variables (v ∷ []),
        length-set n values (record { lb = S.zero; ub = S.one }),
      )

  pub add-IsShaped : (v : Variable) (b b' : Box Q) → add S entire v b ≡ some b' → IsShaped b'
  add-IsShaped v b b' h = (added v b b' v.type refl h).1

  -- A variable that is added is there, with those that were.
  pub has_variable-add :
      (v w : Variable) (b b' : Box Q)
      → add S entire v b ≡ some b'
      → has_variable b w ≡ true
      → has_variable b' w ≡ true
  unfolding has_variable index
  has_variable-add v w b b' h e = elim (Option-cases (index_from 0 w b.variables)) [
    | inl e' ↦ ground (arith)
    | inr (i, e') ↦
        let same = (added v b b' v.type refl h).0 in
        ground (arith, index_from-append 0 i w b.variables (v ∷ []) e')
  ]

  pub has_variable-added :
      (v : Variable) (b b' : Box Q) → add S entire v b ≡ some b' → has_variable b' v ≡ true
  unfolding has_variable index
  has_variable-added v b b' h =
      let same = (added v b b' v.type refl h).0 in
      let (j, e) = index_from-snoc 0 v b.variables in ground (arith)
