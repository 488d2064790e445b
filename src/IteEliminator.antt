-- ===== src/IteEliminator.antt =====
-- dreal/util/if_then_else_eliminator.cc: every conditional expression is replaced by a new variable,
-- and formulas say which value it has. The state is `added_formulas_`, `ite_variables_` and `next`,
-- the identifier that the next variable gets. Operands are visited from the left. `Process` starts
-- again inside a quantifier, so it runs on fuel: one round for each level of nested quantifiers.
pub mod Steps
pub mod Meanings
pub mod Taken
pub mod Conditional
pub mod Promise
pub mod Visit
pub mod Sets
pub mod Quantified
pub mod Process
use Prim.Native.Nat.{max}
use dlinear.Base.{ℕ, zero, suc, ◌+◌, Bool, false, ◌&&◌, List, [], ◌∷◌, ◌++◌, if◌then◌else◌, ltb}
use dlinear.Symbolic.Syntax.{
  Variable, Variables, VarType, continuous, Unary, Binary, division, power, atan2, min,
  max as maximum, Expression, constant, variable, addition, multiplication, unary, binary,
  if_then_else, uninterpreted, Terms, no_term, term, Factors, no_factor, factor, Formula, Formulas,
  bot, top, prop, eq, neq, gt, geq, lt, leq, conj, disj, neg, forall, nil, cons,
}
use dlinear.Symbolic.Library.{Library, insert}
use dlinear.Nnfizer

-- The operators of the symbolic library on expressions, and `Expression::include_ite`.
pub record Operators (Q : Type 0) : Type 0 where
  pub plus : Expression Q → Expression Q → Expression Q
  pub times : Expression Q → Expression Q → Expression Q
  pub pow : Expression Q → Expression Q → Expression Q
  pub make_unary : Unary → Expression Q → Expression Q
  -- Division, `atan2`, `min` and `max`.
  pub make_binary : Binary → Expression Q → Expression Q → Expression Q
  pub include_ite : Expression Q → Bool

pub record State (Q : Type 0) : Type 0 where
  pub added : List (Formula Q)
  pub variables : Variables
  pub next : ℕ

-- The variable that stands for a conditional expression.
abbrev pub fresh : ℕ → Variable
fresh n = record { id = n; type = continuous }

-- `std::set<Variable>::insert`, by the identifier; an equal element stays.
unfoldable pub insert_variable : Variable → Variables → Variables
insert_variable v [] = v ∷ []
insert_variable v (w ∷ ws) =
    let rest = insert_variable v ws in
    if ltb v.id w.id then v ∷ w ∷ ws else if ltb w.id v.id then w ∷ rest else w ∷ ws

unfoldable pub insert_variables : Variables → Variables → Variables
unfolding insert_variable
insert_variables [] set = set
insert_variables (v ∷ vs) set = insert_variables vs (insert_variable v set)

module _ {Q : Type 0} (L : Library Q) where
  abbrev pub then_guard : Formula Q → Formula Q → Formula Q
  then_guard guard c = L.both guard c

  abbrev pub else_guard : Formula Q → Formula Q → Formula Q
  else_guard guard c = L.both guard (L.negate c)

  -- The guard implies that the variable has the value.
  abbrev pub says : Formula Q → Variable → Expression Q → Formula Q
  says guard v e = L.either (L.negate guard) (L.equal_to (variable v) e)

  -- `make_conjunction` of a vector.
  unfoldable pub conjoin : Formula Q → List (Formula Q) → Formula Q
  conjoin ret [] = ret
  conjoin ret (f ∷ fs) = conjoin (L.both ret f) fs

module _ {Q : Type 0} (L : Library Q) (B : Operators Q) where
  -- An expression without conditionals is left as it is.
  abbrev pub keep : Expression Q → State Q → Expression Q × State Q → Expression Q × State Q
  keep e s r = if B.include_ite e then r else (e, s)

  abbrev pub apply : Binary → Expression Q → Expression Q → Expression Q
  apply power d e = B.pow d e
  apply op d e = B.make_binary op d e

  -- `inner` is the call of `Process` by a new eliminator: the formula, its variables and the counter.
  module _ (inner : Formula Q → ℕ → Formula Q × Variables × ℕ) where
    unfoldable mutual
      pub visit : Expression Q → Formula Q → State Q → Expression Q × State Q
      visit (constant c) guard s = (constant c, s)
      visit (variable v) guard s = (variable v, s)
      visit (addition c ts) guard s = keep (addition c ts) s (visit_terms ts (constant c) guard s)
      visit (multiplication c fs) guard s =
          keep (multiplication c fs) s (visit_factors fs (constant c) guard s)
      visit (unary op e) guard s =
          let (d, s1) = visit e guard s in keep (unary op e) s (B.make_unary op d, s1)
      visit (binary op d e) guard s =
          let (d1, s1) = visit d guard s in
          let (e1, s2) = visit e guard s1 in keep (binary op d e) s (apply op d1 e1, s2)
      visit (if_then_else f d e) guard s =
          let v = fresh s.next in
          let (c, s1) =
            visit_formula f guard
              (record s { variables = s.variables ++ v ∷ []; next = s.next + 1 }) in
          let (d1, s2) = visit d (then_guard L guard c) s1 in
          let (e1, s3) = visit e (else_guard L guard c) s2 in
          keep (if_then_else f d e) s (
            variable v,
            record s3 {
              added =
                  (s3.added ++ says L (then_guard L guard c) v d1 ∷ [])
                  ++ says L (else_guard L guard c) v e1 ∷ [];
            },
          )
      visit (uninterpreted name vs) guard s = (uninterpreted name vs, s)

      -- `ret += c_i * Visit(e_i)` for every term.
      pub visit_terms : Terms Q → Expression Q → Formula Q → State Q → Expression Q × State Q
      visit_terms no_term ret guard s = (ret, s)
      visit_terms (term e c ts) ret guard s =
          let (e1, s1) = visit e guard s in
          visit_terms ts (B.plus ret (B.times (constant c) e1)) guard s1

      pub visit_factors : Factors Q → Expression Q → Formula Q → State Q → Expression Q × State Q
      visit_factors no_factor ret guard s = (ret, s)
      visit_factors (factor e d fs) ret guard s =
          let (e1, s1) = visit e guard s in
          let (d1, s2) = visit d guard s1 in visit_factors fs (B.times ret (B.pow e1 d1)) guard s2

      pub visit_formula : Formula Q → Formula Q → State Q → Formula Q × State Q
      visit_formula bot guard s = (bot, s)
      visit_formula top guard s = (top, s)
      visit_formula (prop v) guard s = (prop v, s)
      visit_formula (eq d e) guard s =
          let (d1, s1) = visit d guard s in
          let (e1, s2) = visit e guard s1 in (L.equal_to d1 e1, s2)
      visit_formula (neq d e) guard s =
          let (d1, s1) = visit d guard s in
          let (e1, s2) = visit e guard s1 in (L.not_equal_to d1 e1, s2)
      visit_formula (gt d e) guard s =
          let (d1, s1) = visit d guard s in
          let (e1, s2) = visit e guard s1 in (L.greater_than d1 e1, s2)
      visit_formula (geq d e) guard s =
          let (d1, s1) = visit d guard s in
          let (e1, s2) = visit e guard s1 in (L.greater_than_or_equal_to d1 e1, s2)
      visit_formula (lt d e) guard s =
          let (d1, s1) = visit d guard s in
          let (e1, s2) = visit e guard s1 in (L.less_than d1 e1, s2)
      visit_formula (leq d e) guard s =
          let (d1, s1) = visit d guard s in
          let (e1, s2) = visit e guard s1 in (L.less_than_or_equal_to d1 e1, s2)
      visit_formula (conj fs) guard s =
          let (gs, s1) = visit_all fs nil guard s in (L.make_conjunction gs, s1)
      visit_formula (disj fs) guard s =
          let (gs, s1) = visit_all fs nil guard s in (L.make_disjunction gs, s1)
      visit_formula (neg f) guard s = let (g, s1) = visit_formula f guard s in (L.negate g, s1)
      visit_formula (forall vs f) guard s =
          let (eliminated, ws, n) = inner (L.negate f) s.next in
          (
            L.make_forall (insert_variables ws vs) (Nnfizer.convert L (L.negate eliminated) false),
            record s { next = n },
          )

      -- The operands, put into a set.
      pub visit_all : Formulas Q → Formulas Q → Formula Q → State Q → Formulas Q × State Q
      visit_all nil result guard s = (result, s)
      visit_all (cons f fs) result guard s =
          let (g, s1) = visit_formula f guard s in visit_all fs (insert L g result) guard s1

    abbrev pub finish : Formula Q → Formula Q → List (Formula Q) → Formula Q
    finish f new_f [] = if L.same f new_f then f else L.both new_f (conjoin L top [])
    finish f new_f (g ∷ gs) = L.both new_f (conjoin L top (g ∷ gs))

    -- One round of `Process`.
    unfoldable pub process_with : Formula Q → ℕ → Formula Q × Variables × ℕ
    unfolding visit_formula conjoin
    process_with f n =
        let (new_f, s) = visit_formula f top (record { added = []; variables = []; next = n }) in
        (finish f new_f s.added, s.variables, s.next)

-- How deep quantifiers are nested, those in conditions too.
module _ {Q : Type 0} where
  unfoldable mutual
    pub nesting_expression : Expression Q → ℕ
    nesting_expression (constant c) = 0
    nesting_expression (variable v) = 0
    nesting_expression (addition c ts) = nesting_terms ts
    nesting_expression (multiplication c fs) = nesting_factors fs
    nesting_expression (unary op e) = nesting_expression e
    nesting_expression (binary op d e) = max (nesting_expression d) (nesting_expression e)
    nesting_expression (if_then_else f d e) =
        max (nesting f) (max (nesting_expression d) (nesting_expression e))
    nesting_expression (uninterpreted name vs) = 0

    pub nesting_terms : Terms Q → ℕ
    nesting_terms no_term = 0
    nesting_terms (term e c ts) = max (nesting_expression e) (nesting_terms ts)

    pub nesting_factors : Factors Q → ℕ
    nesting_factors no_factor = 0
    nesting_factors (factor e d fs) =
        max (max (nesting_expression e) (nesting_expression d)) (nesting_factors fs)

    pub nesting : Formula Q → ℕ
    nesting bot = 0
    nesting top = 0
    nesting (prop v) = 0
    nesting (eq d e) = max (nesting_expression d) (nesting_expression e)
    nesting (neq d e) = max (nesting_expression d) (nesting_expression e)
    nesting (gt d e) = max (nesting_expression d) (nesting_expression e)
    nesting (geq d e) = max (nesting_expression d) (nesting_expression e)
    nesting (lt d e) = max (nesting_expression d) (nesting_expression e)
    nesting (leq d e) = max (nesting_expression d) (nesting_expression e)
    nesting (conj fs) = nesting_all fs
    nesting (disj fs) = nesting_all fs
    nesting (neg f) = nesting f
    nesting (forall vs f) = nesting f + 1

    pub nesting_all : Formulas Q → ℕ
    nesting_all nil = 0
    nesting_all (cons f fs) = max (nesting f) (nesting_all fs)

module _ {Q : Type 0} (L : Library Q) (B : Operators Q) where
  unfoldable pub process_fuel : ℕ → Formula Q → ℕ → Formula Q × Variables × ℕ
  unfolding process_with
  process_fuel zero f n = (f, [], n)
  process_fuel (suc k) f n = process_with L B (process_fuel k) f n

  -- `Process`, and the variables that it adds.
  unfoldable pub process : Formula Q → ℕ → Formula Q × Variables × ℕ
  unfolding process_fuel nesting
  process f n = process_fuel (suc (nesting f)) f n
