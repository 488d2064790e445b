-- ===== src/Context/Answered.antt =====
-- The numbers of the theory solver's model, against the columns of the linear problem.
use dlinear.Base.{
  ℕ, Bool, true, false, ◌≡◌, refl, sym, ap, ◌∙◌, subst, none, some, List, [], ◌∷◌, ◌==◌, All,
  All-both, length, Bool-cases, inl, inr, arith,
}
use dlinear.Symbolic.Syntax.{Variable, Formula}
use dlinear.Symbolic.Meaning.{Structure, Env}
use dlinear.PredicateAbstractor.{find_formula}
use dlinear.Box.Intervals.{point}
use dlinear.Box.{Box, at, get_elem?}
use dlinear.SatSolver.Linear.{Soplex, Linear, find_col}
use dlinear.SatSolver.Linear.Bounds.{WithinBounds}
use dlinear.SatSolver.Linear.Problem.{Row, satisfies_rows}
use dlinear.SatSolver.Linear.Affine.{Follows}
use dlinear.SatSolver.Linear.Represents.{IsNumbered, columns_of, Represents}
use dlinear.SatSolver.Linear.OnRow.{Covered}
use dlinear.SatSolver.Solver.{Solver}
use dlinear.TheorySolver.Missing.{Columns}
use dlinear.TheorySolver.Bounds.{admits, Within, Distinct, Copied, IsPoint}
use dlinear.Context.Refutes.{number_at}

find_col-none :
    (id : ℕ) (m : Columns) → find_col id (columns_of m) ≡ none → All (λ c. (c.1.id == id) ≡ false) m
unfolding find_col
find_col-none id [] e = tt
find_col-none id ((col, v) ∷ m) e = (ground (arith), find_col-none id m (ground (arith)))

pub numbered-Distinct : (n : ℕ) (m : Columns) → IsNumbered n (columns_of m) → Distinct m
numbered-Distinct n [] h = tt
numbered-Distinct n ((col, v) ∷ m) h = (find_col-none v.id m h.1, numbered-Distinct col m h.2)

-- What holds of every column holds of the one that a variable has.
All-find_col :
    (P : ℕ × Variable → Type 0) (id col : ℕ) (m : Columns)
    → All P m
    → find_col id (columns_of m) ≡ some col
    → (v : Variable) × (v.id ≡ id) × P (col, v)
unfolding find_col
All-find_col P id col [] h e = absurd (ground (arith))
All-find_col P id col ((c, v) ∷ m) h e = elim (Bool-cases (id == v.id)) [
  | inl met ↦
      let same : c ≡ col = ground (arith) in (v, ground (arith), subst (λ k. P (k, v)) same h.0)
  | inr other ↦ All-find_col P id col m h.1 (ground (arith))
]

module _ {Q : Type 0} where
  -- The point has the numbers of the model.
  abbrev pub ReadsModel : Env Q → Box Q → ℕ × Variable → Type 0
  ReadsModel env model (col, v) = at model v ≡ some (point (env.value v.id))

  point-injective : (a b : Q) → some (point a) ≡ some (point b) → a ≡ b
  point-injective a b e = ground (arith)

pub no_rows-satisfied :
    {Q : Type 0} (S : Structure Q) (infinity : Q) (y : ℕ → Q) (rs : List (Row Q))
    → length rs ≡ 0
    → satisfies_rows S infinity y rs ≡ true
unfolding satisfies_rows
no_rows-satisfied S infinity y [] e = refl
no_rows-satisfied S infinity y (r ∷ rs) e = absurd (omega (arith, e))

module _ {Q P Z : Type 0} (S : Structure Q) (infinity : Q) (X : Soplex Q P)
    (rows : P → List (Row Q)) where
  -- The linear problem has a row for the theory literal, or needs none.
  abbrev pub IsCovered : Solver Q P Z → Variable × Bool → Type 0
  IsCovered s (v, sign) =
      (f : Formula Q)
      → find_formula v s.abstractor.var_to_formula ≡ some f
      → Covered S infinity X rows s.linear v sign f

module _ {Q P : Type 0} {S : Structure Q} (infinity : Q) (X : Soplex Q P) (rows : P → List (Row Q))
    (formulas : List (Variable × Formula Q)) (l : Linear Q P) (env : Env Q) (model : Box Q)
    (h : Represents S infinity X rows formulas l)
    (reads : All (ReadsModel env model) l.from_col) where
  column :
      (id col : ℕ)
      → find_col id l.to_col ≡ some col
      → (P : ℕ × Variable → Type 0) → All P l.from_col
      → (v : Variable) × (v.id ≡ id) × P (col, v)
  column id col e P all = All-find_col P id col l.from_col all (sym (ap (find_col id) h.mirror) ∙ e)

  pub IsPoint-WithinBounds : All (IsPoint S l.lower l.upper model) l.from_col → WithinBounds S env l
  IsPoint-WithinBounds points id col e =
      let (v, same, ((q, at, inside), read)) =
        column id col e (λ c. IsPoint S l.lower l.upper model c × ReadsModel env model c)
          (All-both _ _ l.from_col points reads) in
      let value : q ≡ env.value id =
        point-injective q (env.value v.id) (sym at ∙ read) ∙ ap env.value same in
      subst (λ a. admits S l.lower l.upper col a ≡ true) value inside

  -- The solution that was copied has the number of the variable.
  Copied-value :
      (x : List Q)
      → All (Copied x model) l.from_col
      → (id col : ℕ) → find_col id l.to_col ≡ some col
      → get_elem? x col ≡ some (env.value id)
  Copied-value x copied id col e =
      let (v, same, ((a, at, single), read)) =
        column id col e (λ c. Copied x model c × ReadsModel env model c)
          (All-both _ _ l.from_col copied reads) in
      let value : a ≡ env.value id =
        point-injective a (env.value v.id) (sym single ∙ read) ∙ ap env.value same in
      at ∙ ap some value

  pub Copied-Follows :
      (x : List Q)
      → All (Copied x model) l.from_col
      → Follows env (number_at S infinity rows x) l.to_col
  Copied-Follows x copied id col e = ground (arith, Copied-value x copied id col e)

  pub Copied-WithinBounds :
      (x : List Q)
      → All (Copied x model) l.from_col
      → Within S l.lower l.upper x
      → WithinBounds S env l
  Copied-WithinBounds x copied within id col e =
      within col (env.value id) (Copied-value x copied id col e)
