-- ===== src/SatSolver/Linear/Enable.antt =====
-- What `EnableLinearLiteral` does with a simple bound.
use dlinear.Base.{
  ℕ, Bool, true, false, not, ◌≡◌, ◌↔◌, refl, sym, subst, ◌∙◌, Option, none, some, Bool-cases,
  Option-cases, inl, inr, arith,
}
use dlinear.Symbolic.Syntax.{
  Variable, Expression, constant, variable, Formula, eq, neq, gt, geq, lt, leq,
}
use dlinear.Symbolic.Meaning.{Structure, IsOrdered, Env, value_of, holds}
use dlinear.SatSolver.Linear.{
  Soplex, Linear, BoundType, bound_l, bound_u, bound_b, is_equal_or_whatever,
  is_greater_or_whatever, is_less_or_whatever, is_not_equal_or_whatever, set_simple,
  enable_simple_bound, set_on, find_row, is_simple_bound, enable_linear_literal, range_of,
}
use dlinear.Box.{get_elem?}
use dlinear.SatSolver.Linear.Bounds.{WithinBounds, meets, IsInjective, set_var_bound-WithinBounds}

module _ {Q : Type 0} (S : Structure Q) where
  -- The literal with its strict inequality weakened, and true for a disequality.
  unfoldable pub relaxed : Env Q → Formula Q → Bool → Bool
  relaxed env (eq d e) true = S.equal (value_of S env d) (value_of S env e)
  relaxed env (neq d e) false = S.equal (value_of S env d) (value_of S env e)
  relaxed env (gt d e) true = not (S.less (value_of S env d) (value_of S env e))
  relaxed env (geq d e) true = not (S.less (value_of S env d) (value_of S env e))
  relaxed env (lt d e) false = not (S.less (value_of S env d) (value_of S env e))
  relaxed env (leq d e) false = not (S.less (value_of S env d) (value_of S env e))
  relaxed env (gt d e) false = not (S.less (value_of S env e) (value_of S env d))
  relaxed env (geq d e) false = not (S.less (value_of S env e) (value_of S env d))
  relaxed env (lt d e) true = not (S.less (value_of S env e) (value_of S env d))
  relaxed env (leq d e) true = not (S.less (value_of S env e) (value_of S env d))
  relaxed env _ _ = true

  -- `value_of` of the three bound types, for `d op e`.
  abbrev pub compares : BoundType → Q → Q → Bool
  compares bound_b a b = S.equal a b
  compares bound_l a b = not (S.less a b)
  compares bound_u a b = not (S.less b a)

-- The bound type for the mirrored comparison.
abbrev pub mirrored : BoundType → BoundType
mirrored bound_b = bound_b
mirrored bound_l = bound_u
mirrored bound_u = bound_l

module _ {Q P : Type 0} {S : Structure Q} (ordered : IsOrdered S) (infinity : Q)
    (X : Soplex Q P) where
  meets-compares : (t : BoundType) (a b : Q) → meets S t b a ≡ compares S t a b
  meets-compares bound_b a b = ground (arith, S.trichotomy a b)
  meets-compares bound_l a b = ground (arith)
  meets-compares bound_u a b = ground (arith)

  meets-mirrored : (t : BoundType) (a b : Q) → meets S (mirrored t) a b ≡ compares S t a b
  meets-mirrored bound_b a b = ground (arith, S.trichotomy a b)
  meets-mirrored bound_l a b = ground (arith)
  meets-mirrored bound_u a b = ground (arith)

  set_on-WithinBounds :
      (d e : Expression Q) (t : BoundType) (l l' : Linear Q P) (env : Env Q)
      → IsInjective l.to_col
      → set_on S infinity X d e t (mirrored t) l ≡ some l'
      → WithinBounds S env l'
        ↔ (WithinBounds S env l × (compares S t (value_of S env d) (value_of S env e) ≡ true))
  unfolding value_of set_on
  set_on-WithinBounds (variable v) (constant c) t l l' env injective h =
      let (there, back) =
        set_var_bound-WithinBounds ordered infinity X v t c l l' env injective h in
      let same = meets-compares t (env.value v.id) c in
      ((λ w. ((there w).0, sym same ∙ (there w).1)), (λ (w, m). back (w, same ∙ m)))
  set_on-WithinBounds (constant c) (variable v) t l l' env injective h =
      let (there, back) =
        set_var_bound-WithinBounds ordered infinity X v (mirrored t) c l l' env injective h in
      let same = meets-mirrored t c (env.value v.id) in
      ((λ w. ((there w).0, sym same ∙ (there w).1)), (λ (w, m). back (w, same ∙ m)))
  set_on-WithinBounds _ _ t l l' env injective h = ground (arith)

  unchanged :
      (l l' : Linear Q P) (env : Env Q)
      → some l ≡ some l'
      → WithinBounds S env l' ↔ (WithinBounds S env l × (true ≡ true))
  unchanged l l' env h =
      let same : l ≡ l' = cc in
      subst (λ m. WithinBounds S env m ↔ (WithinBounds S env l × (true ≡ true))) same
        ((λ w. (w, refl)), (λ (w, _). w))

  enable_simple_bound-WithinBounds :
      (f : Formula Q) (truth : Bool) (l l' : Linear Q P) (env : Env Q)
      → IsInjective l.to_col
      → enable_simple_bound S infinity X f truth l ≡ some l'
      → WithinBounds S env l' ↔ (WithinBounds S env l × (relaxed S env f truth ≡ true))
  unfolding enable_simple_bound set_simple relaxed is_equal_or_whatever is_greater_or_whatever
      is_less_or_whatever is_not_equal_or_whatever
  enable_simple_bound-WithinBounds (eq d e) true l l' env injective h =
      set_on-WithinBounds d e bound_b l l' env injective h
  enable_simple_bound-WithinBounds (eq d e) false l l' env injective h = unchanged l l' env h
  enable_simple_bound-WithinBounds (neq d e) false l l' env injective h =
      set_on-WithinBounds d e bound_b l l' env injective h
  enable_simple_bound-WithinBounds (neq d e) true l l' env injective h = unchanged l l' env h
  enable_simple_bound-WithinBounds (gt d e) true l l' env injective h =
      set_on-WithinBounds d e bound_l l l' env injective h
  enable_simple_bound-WithinBounds (geq d e) true l l' env injective h =
      set_on-WithinBounds d e bound_l l l' env injective h
  enable_simple_bound-WithinBounds (lt d e) true l l' env injective h =
      set_on-WithinBounds d e bound_u l l' env injective h
  enable_simple_bound-WithinBounds (leq d e) true l l' env injective h =
      set_on-WithinBounds d e bound_u l l' env injective h
  enable_simple_bound-WithinBounds (gt d e) false l l' env injective h =
      set_on-WithinBounds d e bound_u l l' env injective h
  enable_simple_bound-WithinBounds (geq d e) false l l' env injective h =
      set_on-WithinBounds d e bound_u l l' env injective h
  enable_simple_bound-WithinBounds (lt d e) false l l' env injective h =
      set_on-WithinBounds d e bound_l l l' env injective h
  enable_simple_bound-WithinBounds (leq d e) false l l' env injective h =
      set_on-WithinBounds d e bound_l l l' env injective h
  enable_simple_bound-WithinBounds _ true l l' env injective h = ground (arith)
  enable_simple_bound-WithinBounds _ false l l' env injective h = ground (arith)

  -- A literal that holds is not lost when it is relaxed.
  pub relaxed-holds :
      (env : Env Q) (f : Formula Q) (truth : Bool)
      → holds S env f ≡ truth
      → relaxed S env f truth ≡ true
  unfolding relaxed holds
  relaxed-holds env (eq d e) truth h = ground (arith)
  relaxed-holds env (neq d e) truth h = ground (arith)
  relaxed-holds env (gt d e) truth h =
      ground (arith, ordered.less_asym (value_of S env e) (value_of S env d))
  relaxed-holds env (geq d e) truth h =
      ground (arith, ordered.less_asym (value_of S env d) (value_of S env e))
  relaxed-holds env (lt d e) truth h =
      ground (arith, ordered.less_asym (value_of S env d) (value_of S env e))
  relaxed-holds env (leq d e) truth h =
      ground (arith, ordered.less_asym (value_of S env e) (value_of S env d))
  relaxed-holds env _ truth h = refl

  -- When `EnableLinearLiteral` succeeds on a theory literal that is a simple bound with no row of
  -- its own, and different variables have different columns, the bounds then admit just the points
  -- that they admitted before and that satisfy the literal, its strict inequality relaxed and a
  -- disequality dropped.
  pub enable_linear_literal-WithinBounds :
      (v : Variable) (f : Formula Q) (truth : Bool) (l l' : Linear Q P) (env : Env Q)
      → IsInjective l.to_col
      → find_row v.id truth l.to_row ≡ none
      → is_simple_bound f ≡ true
      → enable_linear_literal S infinity X v truth (some f) l ≡ some l'
      → WithinBounds S env l' ↔ (WithinBounds S env l × (relaxed S env f truth ≡ true))
  unfolding enable_linear_literal
  enable_linear_literal-WithinBounds v f truth l l' env injective none_row simple h =
      enable_simple_bound-WithinBounds f truth l l' env injective (ground (arith))

  kept : (l l' : Linear Q P) (env : Env Q) → l ≡ l' → WithinBounds S env l → WithinBounds S env l'
  kept l l' env same w = subst (WithinBounds S env) same w

  -- The range of a row is not a bound.
  range_kept :
      (v : Variable) (theory : Option (Formula Q)) (truth : Bool) (l l' : Linear Q P) (env : Env Q)
      (row : ℕ)
      → find_row v.id truth l.to_row ≡ some row
      → enable_linear_literal S infinity X v truth theory l ≡ some l'
      → WithinBounds S env l
      → WithinBounds S env l'
  unfolding enable_linear_literal
  range_kept v theory truth l l' env row e h w = elim (Option-cases (get_elem? l.sense row)) [
    | inl e1 ↦ ground (arith)
    | inr (sense, e1) ↦ elim (Option-cases (get_elem? l.rhs row)) [
      | inl e2 ↦ ground (arith)
      | inr (rhs, e2) ↦
          let range = range_of S infinity X sense rhs in
          let prob = X.change_range row range.0 range.1 l.prob in
          kept (record l { prob = prob }) l' env (ground (arith)) w
    ]
  ]

  -- Enabling a literal never loses a point that satisfies it: whatever the call does, bounds that
  -- admit the point admit it afterwards.
  pub enable_linear_literal-sound :
      (v : Variable) (theory : Option (Formula Q)) (truth : Bool) (l l' : Linear Q P) (env : Env Q)
      → IsInjective l.to_col
      → ((f : Formula Q) → theory ≡ some f → holds S env f ≡ truth)
      → enable_linear_literal S infinity X v truth theory l ≡ some l'
      → WithinBounds S env l
      → WithinBounds S env l'
  unfolding enable_linear_literal
  enable_linear_literal-sound v theory truth l l' env injective satisfied h w =
      elim (Option-cases (find_row v.id truth l.to_row)) [
        | inr (row, e) ↦ range_kept v theory truth l l' env row e h w
        | inl e ↦ elim (Option-cases theory) [
          | inl e1 ↦ kept l l' env (ground (arith)) w
          | inr (f, e1) ↦ elim (Bool-cases (is_simple_bound f)) [
            | inl simple ↦
                (enable_simple_bound-WithinBounds f truth l l' env injective (ground (arith))).1
                  (w, relaxed-holds env f truth (satisfied f e1))
            | inr other ↦ kept l l' env (ground (arith)) w
          ]
        ]
      ]
