-- ===== src/Box/Grow.antt =====
-- What a box keeps when a variable is added.
use dlinear.Base.{
  ℕ, zero, suc, ◌+◌, ◌<◌, Bool, true, false, ◌≡◌, refl, ◌∙◌, none, some, List, [], ◌∷◌, ◌++◌, ◌==◌,
  length, Option-cases, inl, inr, arith,
}
use dlinear.Symbolic.Syntax.{Variable, VarType, continuous, integer, binary, boolean}
use dlinear.Symbolic.Meaning.{Structure}
use dlinear.Box.Intervals.{Interval}
use dlinear.Box.{
  Box, resize, get_elem?, index_from, index, has_variable, at, assign_at, add, add_with,
}
use dlinear.Box.Access.{
  IsShaped, get_elem?-set_other, index_from-append, index_from-lt, at-assign_at, at-assign_at_other,
  assign_at-IsShaped, has_variable-assign_at, add-IsShaped, has_variable-added,
}

get_elem?-resize :
    {A : Type 0} (d : A) (n i : ℕ) (xs : List A)
    → i < n
    → i < length xs
    → get_elem? (resize d n xs) i ≡ get_elem? xs i
unfolding get_elem? resize
get_elem?-resize d zero i xs l h = absurd (omega (arith, l))
get_elem?-resize d (suc n) i [] l h = absurd (omega (arith, h))
get_elem?-resize d (suc n) zero (x ∷ xs) l h = refl
get_elem?-resize d (suc n) (suc i) (x ∷ xs) l h =
    get_elem?-resize d n i xs (omega (arith, l)) (omega (arith, h))

index_from-absent :
    (n : ℕ) (v w : Variable) (vs : List Variable)
    → (v.id == w.id) ≡ false
    → index_from n w vs ≡ none
    → index_from n w (vs ++ v ∷ []) ≡ none
unfolding index_from
index_from-absent n v w [] ne h = ground (arith)
index_from-absent n v w (u ∷ vs) ne h = ground (arith, index_from-absent (suc n) v w vs)

-- The types that a box takes.
abbrev pub is_addable : VarType → Bool
is_addable continuous = true
is_addable boolean = true
is_addable _ = false

module _ {Q : Type 0} (S : Structure Q) (entire : Interval Q) where
  get_elem?-added :
      (v : Variable) (b b' : Box Q) (t : VarType) (i : ℕ)
      → v.type ≡ t
      → IsShaped b
      → i < length b.variables
      → add S entire v b ≡ some b'
      → (b'.variables ≡ b.variables ++ v ∷ []) × (get_elem? b'.values i ≡ get_elem? b.values i)
  unfolding add
  get_elem?-added v b b' integer i is shaped l h = ground (arith)
  get_elem?-added v b b' binary i is shaped l h = ground (arith)
  get_elem?-added v b b' continuous i is shaped l h =
      let n = length b.variables in
      let old =
        get_elem?-resize entire (n + 1) i b.values (omega (arith, l)) (omega (arith, l, shaped)) in
      ground (arith)
  get_elem?-added v b b' boolean i is shaped l h =
      let n = length b.variables in
      let values = resize entire (n + 1) b.values in
      let old =
        get_elem?-resize entire (n + 1) i b.values (omega (arith, l)) (omega (arith, l, shaped)) in
      let unit : Interval Q = record { lb = S.zero; ub = S.one } in
      let apart : (n == i) ≡ false = ground (arith) in
      let kept = get_elem?-set_other n i values unit apart in ground (arith)

  pub added_variables :
      (v : Variable) (b b' : Box Q) (t : VarType)
      → v.type ≡ t
      → add S entire v b ≡ some b'
      → b'.variables ≡ b.variables ++ v ∷ []
  unfolding add
  added_variables v b b' integer is h = ground (arith)
  added_variables v b b' binary is h = ground (arith)
  added_variables v b b' continuous is h = ground (arith)
  added_variables v b b' boolean is h = ground (arith)

  -- Another variable is there after an addition where it was, with its interval.
  pub add-other :
      (v w : Variable) (b b' : Box Q)
      → IsShaped b
      → (v.id == w.id) ≡ false
      → add S entire v b ≡ some b'
      → (has_variable b' w ≡ has_variable b w) × (at b' w ≡ at b w)
  unfolding has_variable at index
  add-other v w b b' shaped ne h =
      let vars = added_variables v b b' v.type refl h in
      elim (Option-cases (index_from 0 w b.variables)) [
        | inl e ↦ ground (arith, index_from-absent 0 v w b.variables ne e)
        | inr (i, e) ↦
            let small = index_from-lt 0 i w b.variables e in
            let l : i < length b.variables = omega (arith, small) in
            let same = (get_elem?-added v b b' v.type i refl shaped l h).1 in
            ground (arith, index_from-append 0 i w b.variables (v ∷ []) e)
      ]

  add-some :
      (v : Variable) (b : Box Q) (t : VarType)
      → v.type ≡ t
      → is_addable t ≡ true
      → (b' : Box Q) × (add S entire v b ≡ some b')
  unfolding add
  add-some v b integer is h = ground (arith)
  add-some v b binary is h = ground (arith)
  add-some v b continuous is h = elim (Option-cases (add S entire v b)) [
    | inl e ↦ ground (arith)
    | inr (b', e) ↦ (b', e)
  ]
  add-some v b boolean is h = elim (Option-cases (add S entire v b)) [
    | inl e ↦ ground (arith)
    | inr (b', e) ↦ (b', e)
  ]

  -- An addition with bounds, of a variable that a box takes.
  pub add_with-some :
      (v : Variable) (lb ub : Q) (b : Box Q)
      → is_addable v.type ≡ true
      → IsShaped b
      → (b' : Box Q) × (add_with S entire v lb ub b ≡ some b')
        × IsShaped b'
        × (has_variable b' v ≡ true)
        × (at b' v ≡ some (record { lb = lb; ub = ub }))
        × ((w : Variable)
            → (v.id == w.id) ≡ false
            → (has_variable b' w ≡ has_variable b w) × (at b' w ≡ at b w))
  unfolding add_with
  add_with-some v lb ub b h shaped =
      let (b1, e) = add-some v b v.type refl h in
      let iv : Interval Q = record { lb = lb; ub = ub } in
      let shaped1 = add-IsShaped S entire v b b1 e in
      let there = has_variable-added S entire v b b1 e in
      (
        assign_at b1 v iv,
        ground (arith),
        assign_at-IsShaped b1 v iv shaped1,
        has_variable-assign_at b1 v v iv ∙ there,
        at-assign_at b1 v iv shaped1 there,
        λ w ne.
            let (has, value) = add-other v w b b1 shaped ne e in
            (has_variable-assign_at b1 v w iv ∙ has, at-assign_at_other b1 v w iv ne ∙ value),
      )
