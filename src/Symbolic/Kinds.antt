-- ===== src/Symbolic/Kinds.antt =====
-- dreal/symbolic/symbolic.cc: the predicates on the kind of a formula, and on sets of variables.
use dlinear.Base.{Bool, true, false, not, ◌&&◌, ◌||◌, [], ◌∷◌, if◌then◌else◌, ltb}
use dlinear.Symbolic.Syntax.{
  Variables, Formula, Formulas, Expression, constant, variable, bot, top, prop, eq, neq, gt, geq,
  lt, leq, conj, disj, neg, nil, cons,
}

module _ {Q : Type 0} where
  abbrev pub is_constant : Expression Q → Bool
  is_constant (constant c) = true
  is_constant _ = false

  abbrev pub is_expression_variable : Expression Q → Bool
  is_expression_variable (variable v) = true
  is_expression_variable _ = false

  abbrev pub is_true : Formula Q → Bool
  is_true top = true
  is_true _ = false

  abbrev pub is_false : Formula Q → Bool
  is_false bot = true
  is_false _ = false

  abbrev pub is_variable : Formula Q → Bool
  is_variable (prop v) = true
  is_variable _ = false

  abbrev pub is_relational : Formula Q → Bool
  is_relational (eq d e) = true
  is_relational (neq d e) = true
  is_relational (gt d e) = true
  is_relational (geq d e) = true
  is_relational (lt d e) = true
  is_relational (leq d e) = true
  is_relational _ = false

  unfoldable pub is_atomic : Formula Q → Bool
  is_atomic (conj fs) = false
  is_atomic (disj fs) = false
  is_atomic (neg f) = is_variable f || is_relational f
  is_atomic _ = true

  unfoldable pub all_atomic : Formulas Q → Bool
  all_atomic nil = true
  all_atomic (cons f fs) = is_atomic f && all_atomic fs

  -- A negation that is not atomic is a clause where its operand is atomic.
  unfoldable pub is_clause : Formula Q → Bool
  unfolding is_atomic all_atomic
  is_clause (conj fs) = false
  is_clause (disj fs) = all_atomic fs
  is_clause (neg f) = is_atomic (neg f) || is_atomic f
  is_clause f = is_atomic f

  unfoldable pub get_clauses : Formula Q → Formulas Q
  get_clauses (conj fs) = fs
  get_clauses f = cons f nil

-- The merge of two sets in ascending order.
unfoldable pub have_intersection : Variables → Variables → Bool
have_intersection [] ws = false
have_intersection (v ∷ vs) [] = false
have_intersection (v ∷ vs) (w ∷ ws) =
    let smaller = have_intersection vs (w ∷ ws) in
    let larger = have_intersection (v ∷ vs) ws in
    if ltb v.id w.id then smaller else if not (ltb w.id v.id) then true else larger
