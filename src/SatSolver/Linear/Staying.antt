-- ===== src/SatSolver/Linear/Staying.antt =====
-- No column moves when a literal is enabled.
use dlinear.Base.{Bool, ◌≡◌, Option, some, Option-cases, inl, inr, arith}
use dlinear.Symbolic.Syntax.{Variable, Expression, constant, variable, Formula}
use dlinear.Symbolic.Meaning.{Structure, IsOrdered}
use dlinear.SatSolver.Linear.{
  Soplex, Linear, BoundType, bound_l, bound_u, bound_b, operands, set_simple, enable_simple_bound,
  set_on, find_row, enable_linear_literal,
}
use dlinear.Box.{get_elem?}
use dlinear.SatSolver.Linear.Bounds.{set_var_bound-to_col}

module _ {Q P : Type 0} {S : Structure Q} (ordered : IsOrdered S) (infinity : Q)
    (X : Soplex Q P) where
  set_on-to_col :
      (d e : Expression Q) (t u : BoundType) (l l' : Linear Q P)
      → set_on S infinity X d e t u l ≡ some l'
      → l'.to_col ≡ l.to_col
  unfolding set_on
  set_on-to_col (variable v) (constant c) t u l l' h =
      (set_var_bound-to_col ordered infinity X v t c l l' h).0
  set_on-to_col (constant c) (variable v) t u l l' h =
      (set_var_bound-to_col ordered infinity X v u c l l' h).0
  set_on-to_col _ _ t u l l' h = ground (arith)

  set_simple-to_col :
      (f : Formula Q) (t u : BoundType) (l l' : Linear Q P)
      → set_simple S infinity X f t u l ≡ some l'
      → l'.to_col ≡ l.to_col
  unfolding set_simple
  set_simple-to_col f t u l l' h = elim (Option-cases (operands f)) [
    | inl e ↦ ground (arith)
    | inr ((lhs, rhs), e) ↦ set_on-to_col lhs rhs t u l l' (ground (arith))
  ]

  enable_simple_bound-to_col :
      (f : Formula Q) (truth : Bool) (l l' : Linear Q P)
      → enable_simple_bound S infinity X f truth l ≡ some l'
      → l'.to_col ≡ l.to_col
  unfolding enable_simple_bound
  enable_simple_bound-to_col f truth l l' h = ground (
    arith,
    set_simple-to_col f bound_b bound_b l l',
    set_simple-to_col f bound_l bound_u l l',
    set_simple-to_col f bound_u bound_l l l',
  )

  -- No column moves.
  pub enable_linear_literal-to_col :
      (v : Variable) (theory : Option (Formula Q)) (truth : Bool) (l l' : Linear Q P)
      → enable_linear_literal S infinity X v truth theory l ≡ some l'
      → l'.to_col ≡ l.to_col
  unfolding enable_linear_literal
  enable_linear_literal-to_col v theory truth l l' h =
      elim (Option-cases (find_row v.id truth l.to_row)) [
        | inr (row, e) ↦ elim (Option-cases (get_elem? l.sense row)) [
          | inl e1 ↦ ground (arith)
          | inr (sense, e1) ↦ elim (Option-cases (get_elem? l.rhs row)) [
            | inl e2 ↦ ground (arith)
            | inr (rhs, e2) ↦ ground (arith)
          ]
        ]
        | inl e ↦ elim (Option-cases theory) [
          | inl e1 ↦ ground (arith)
          | inr (f, e1) ↦ ground (arith, enable_simple_bound-to_col f truth l l')
        ]
      ]
