-- ===== src/SatSolver/Linear/Bounds.antt =====
-- What a simple bound does to the box of the linear problem.
use dlinear.Base.{
  ℕ, Bool, true, false, not, ◌&&◌, ◌≡◌, ◌↔◌, sym, ap, ◌∙◌, none, some, List, if◌then◌else◌, ◌==◌,
  Bool-cases, Option-cases, inl, inr, arith,
}
use dlinear.Symbolic.Syntax.{Variable}
use dlinear.Symbolic.Meaning.{Structure, IsOrdered, Env}
use dlinear.Box.{get_elem?}
use dlinear.Box.Access.{get_elem?-set, get_elem?-set_other}
use dlinear.SatSolver.Linear.{
  Soplex, Linear, BoundType, find_col, sets_lower, sets_upper, set_var_bound, too_large,
}

module _ {Q P : Type 0} (S : Structure Q) where
  -- The bounds of the column admit the number.
  abbrev pub admits : Linear Q P → ℕ → Q → Bool
  admits l col x = elim (get_elem? l.lower col) [
    | none ↦ false
    | some lb ↦ elim (get_elem? l.upper col) [
      | none ↦ false
      | some ub ↦ not (S.less x lb) && not (S.less ub x)
    ]
  ]

  -- Every variable that has a column lies within its bounds.
  abbrev pub WithinBounds : Env Q → Linear Q P → Type 0
  WithinBounds env l =
      (id col : ℕ) → find_col id l.to_col ≡ some col → admits l col (env.value id) ≡ true

module _ {Q : Type 0} (S : Structure Q) where
  -- The number satisfies a bound of the type.
  abbrev pub meets : BoundType → Q → Q → Bool
  meets type value x =
      (if sets_lower type then not (S.less x value) else true)
      && (if sets_upper type then not (S.less value x) else true)

-- Different variables have different columns.
abbrev pub IsInjective : List (ℕ × ℕ) → Type 0
IsInjective m = (i j col : ℕ) → find_col i m ≡ some col → find_col j m ≡ some col → i ≡ j

module _ {Q P : Type 0} {S : Structure Q} (ordered : IsOrdered S) (infinity : Q)
    (X : Soplex Q P) where
  -- The tighter of two lower bounds is met where both are, and so for the upper ones.
  tighter_lower :
      (t : Bool) (x value lb : Q)
      → not (S.less x (if t && S.less lb value then value else lb))
        ≡ (not (S.less x lb) && (if t then not (S.less x value) else true))
  tighter_lower false x value lb = ground (arith)
  tighter_lower true x value lb =
      ground (
        arith,
        ordered.le_trans lb value x,
        ordered.le_trans value lb x,
        ordered.less_asym lb value,
      )

  tighter_upper :
      (t : Bool) (x value ub : Q)
      → not (S.less (if t && S.less value ub then value else ub) x)
        ≡ (not (S.less ub x) && (if t then not (S.less value x) else true))
  tighter_upper false x value ub = ground (arith)
  tighter_upper true x value ub =
      ground (
        arith,
        ordered.le_trans x value ub,
        ordered.le_trans x ub value,
        ordered.less_asym value ub,
      )

  admits-set_var_bound :
      (v : Variable) (type : BoundType) (value : Q) (l l' : Linear Q P) (col : ℕ) (x : Q)
      → set_var_bound S infinity X v type value l ≡ some l'
      → find_col v.id l.to_col ≡ some col
      → admits S l' col x ≡ (admits S l col x && meets S type value x)
  unfolding set_var_bound
  admits-set_var_bound v type value l l' col x h hc =
      elim (Bool-cases (too_large S infinity X value)) [
        | inl big ↦ ground (arith)
        | inr small ↦ elim (Option-cases (get_elem? l.lower col)) [
          | inl e ↦ ground (arith)
          | inr (lb, e1) ↦ elim (Option-cases (get_elem? l.upper col)) [
            | inl e ↦ ground (arith)
            | inr (ub, e2) ↦ ground (
              arith,
              get_elem?-set col l.lower lb
                  (if sets_lower type && S.less lb value then value else lb) e1,
              get_elem?-set col l.upper ub
                  (if sets_upper type && S.less value ub then value else ub) e2,
              tighter_lower (sets_lower type) x value lb,
              tighter_upper (sets_upper type) x value ub,
            )
          ]
        ]
      ]

  admits-set_var_bound_other :
      (v : Variable) (type : BoundType) (value : Q) (l l' : Linear Q P) (col other : ℕ) (x : Q)
      → set_var_bound S infinity X v type value l ≡ some l'
      → find_col v.id l.to_col ≡ some col
      → (col == other) ≡ false
      → admits S l' other x ≡ admits S l other x
  unfolding set_var_bound
  admits-set_var_bound_other v type value l l' col other x h hc ne =
      elim (Bool-cases (too_large S infinity X value)) [
        | inl big ↦ ground (arith)
        | inr small ↦ elim (Option-cases (get_elem? l.lower col)) [
          | inl e ↦ ground (arith)
          | inr (lb, e1) ↦ elim (Option-cases (get_elem? l.upper col)) [
            | inl e ↦ ground (arith)
            | inr (ub, e2) ↦
                let new_lb = if sets_lower type && S.less lb value then value else lb in
                let new_ub = if sets_upper type && S.less value ub then value else ub in
                ground (
                  arith,
                  get_elem?-set_other col other l.lower new_lb ne,
                  get_elem?-set_other col other l.upper new_ub ne,
                )
          ]
        ]
      ]

  set_var_bound-same :
      (v : Variable) (type : BoundType) (value : Q) (l l' : Linear Q P) (col : ℕ)
      → set_var_bound S infinity X v type value l ≡ some l'
      → find_col v.id l.to_col ≡ some col
      → l'.to_col ≡ l.to_col
  unfolding set_var_bound
  set_var_bound-same v type value l l' col h e = elim (Bool-cases (too_large S infinity X value)) [
    | inl big ↦ ground (arith)
    | inr small ↦ elim (Option-cases (get_elem? l.lower col)) [
      | inl e1 ↦ ground (arith)
      | inr (lb, e1) ↦ elim (Option-cases (get_elem? l.upper col)) [
        | inl e2 ↦ ground (arith)
        | inr (ub, e2) ↦ ground (arith)
      ]
    ]
  ]

  -- The columns stay where they are, and the variable has one.
  pub set_var_bound-to_col :
      (v : Variable) (type : BoundType) (value : Q) (l l' : Linear Q P)
      → set_var_bound S infinity X v type value l ≡ some l'
      → (l'.to_col ≡ l.to_col) × ((col : ℕ) × (find_col v.id l.to_col ≡ some col))
  unfolding set_var_bound
  set_var_bound-to_col v type value l l' h = elim (Option-cases (find_col v.id l.to_col)) [
    | inl e ↦ ground (arith)
    | inr (col, e) ↦ (set_var_bound-same v type value l l' col h e, (col, e))
  ]

  before :
      (v : Variable) (type : BoundType) (value : Q) (l l' : Linear Q P) (env : Env Q) (col id c : ℕ)
      → set_var_bound S infinity X v type value l ≡ some l'
      → find_col v.id l.to_col ≡ some col
      → admits S l' c (env.value id) ≡ true
      → admits S l c (env.value id) ≡ true
  before v type value l l' env col id c h e w = elim (Bool-cases (col == c)) [
    | inl met ↦
        let here : col ≡ c = ground (arith) in
        let both = admits-set_var_bound v type value l l' c (env.value id) h (rw (sym here) e) in
        ground (arith)
    | inr ne ↦ sym (admits-set_var_bound_other v type value l l' col c (env.value id) h e ne) ∙ w
  ]

  after :
      (v : Variable) (type : BoundType) (value : Q) (l l' : Linear Q P) (env : Env Q) (col id c : ℕ)
      → IsInjective l.to_col
      → set_var_bound S infinity X v type value l ≡ some l'
      → find_col v.id l.to_col ≡ some col
      → find_col id l.to_col ≡ some c
      → admits S l c (env.value id) ≡ true
      → meets S type value (env.value v.id) ≡ true
      → admits S l' c (env.value id) ≡ true
  after v type value l l' env col id c injective h e f w m = elim (Bool-cases (col == c)) [
    | inl met ↦
        let here : col ≡ c = ground (arith) in
        let e' : find_col v.id l.to_col ≡ some c = rw (sym here) e in
        let both = admits-set_var_bound v type value l l' c (env.value id) h e' in
        let same : id ≡ v.id = injective id v.id c f e' in
        let m' : meets S type value (env.value id) ≡ true = rw (same) m in ground (arith)
    | inr ne ↦ admits-set_var_bound_other v type value l l' col c (env.value id) h e ne ∙ w
  ]

  moved :
      {m m' : List (ℕ × ℕ)} {col : ℕ} (id : ℕ)
      → m' ≡ m
      → find_col id m ≡ some col
      → find_col id m' ≡ some col
  moved id same e = ap (find_col id) same ∙ e

  -- `SetSPXVarBound` admits just the points that were admitted and meet the new bound.
  pub set_var_bound-WithinBounds :
      (v : Variable) (type : BoundType) (value : Q) (l l' : Linear Q P) (env : Env Q)
      → IsInjective l.to_col
      → set_var_bound S infinity X v type value l ≡ some l'
      → WithinBounds S env l'
        ↔ (WithinBounds S env l × (meets S type value (env.value v.id) ≡ true))
  set_var_bound-WithinBounds v type value l l' env injective h =
      let (same, (col, e)) = set_var_bound-to_col v type value l l' h in
      (
        (λ w.
            let here : admits S l' col (env.value v.id) ≡ true = w v.id col (moved v.id same e) in
            let both = admits-set_var_bound v type value l l' col (env.value v.id) h e in
            (
              (λ id c f. before v type value l l' env col id c h e (w id c (moved id same f))),
              ground (arith),
            )),
        (λ (w, m) id c f.
            let f' : find_col id l.to_col ≡ some c = rw (← same) f in
            after v type value l l' env col id c injective h e f' (w id c f') m),
      )
