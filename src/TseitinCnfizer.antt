-- ===== src/TseitinCnfizer.antt =====
-- dreal/util/tseitin_cnfizer.cc: the conversion that gives every compound subformula a variable and
-- keeps both directions of its definition. `map_` is the state, in the order of its keys; `next` is
-- the identifier that the next variable gets. A call that the source marks unreachable returns
-- `none`.
pub mod Clauses
pub mod Keys
pub mod Quantified
pub mod Sound
pub mod Model
pub mod Completed
pub mod Complete
use dlinear.Base.{
  ℕ, ◌+◌, Bool, true, Option, none, some, List, [], ◌∷◌, ◌++◌, if◌then◌else◌, ltb, ◌==◌,
}
use dlinear.Symbolic.Syntax.{
  Variable, Variables, boolean, Formula, Formulas, bot, top, prop, eq, neq, gt, geq, lt, leq, conj,
  disj, neg, forall, nil, cons,
}
use dlinear.Symbolic.Library.{Library, insert, imply}
use dlinear.Symbolic.Kinds.{get_clauses, have_intersection, is_atomic, is_true}

pub record State (Q : Type 0) : Type 0 where
  pub map : List (Variable × Formula Q)
  pub next : ℕ

abbrev pub fresh : ℕ → Variable
fresh n = record { id = n; type = boolean }

module _ {Q : Type 0} where
  -- `map_.emplace(b, f)`: a key that is there keeps its formula.
  unfoldable pub emplace :
      Variable → Formula Q → List (Variable × Formula Q) → List (Variable × Formula Q)
  emplace b f [] = (b, f) ∷ []
  emplace b f ((c, g) ∷ m) =
      let rest = emplace b f m in
      if ltb b.id c.id
      then (b, f) ∷ (c, g) ∷ m
      else if ltb c.id b.id
      then (c, g) ∷ rest
      else (c, g) ∷ m

  -- `Add`.
  unfoldable pub add : Formula Q → List (Formula Q) → List (Formula Q)
  add f clauses = if is_true f then clauses else clauses ++ f ∷ []

  -- `copy` of a set at the end of a vector.
  unfoldable pub push_all : Formulas Q → List (Formula Q) → List (Formula Q)
  push_all nil clauses = clauses
  push_all (cons f fs) clauses = push_all fs (clauses ++ f ∷ [])

module _ {Q : Type 0} (L : Library Q) where
  -- The clauses of a quantified formula, each with the quantifier where they share a variable.
  unfoldable pub quantify_all : Variables → Formulas Q → Formulas Q → Formulas Q
  unfolding insert
  quantify_all vs nil result = result
  quantify_all vs (cons c cs) result = quantify_all vs cs (
      insert L (if have_intersection (L.free_variables c) vs then L.make_forall vs c else c) result)

  unfoldable pub negate_all : Formulas Q → Formulas Q → Formulas Q
  unfolding insert
  negate_all nil result = result
  negate_all (cons f fs) result = negate_all fs (insert L (L.negate f) result)

  abbrev pub record_definition : Variable → Formula Q → State Q → State Q
  record_definition b f s = record s { map = emplace b f s.map }

  -- `AddIff`.
  unfoldable pub add_iff : Formula Q → Formula Q → List (Formula Q) → List (Formula Q)
  unfolding add imply
  add_iff f g clauses = add (imply L g f) (add (imply L f g) clauses)

  -- The loop of `CnfizeConjunction`, and that of `CnfizeDisjunction`.
  unfoldable pub add_conjuncts : Variable → Formulas Q → List (Formula Q) → List (Formula Q)
  unfolding add
  add_conjuncts b nil clauses = clauses
  add_conjuncts b (cons f fs) clauses =
      add_conjuncts b fs (add (L.either (L.negate (prop b)) f) clauses)

  unfoldable pub add_disjuncts : Variable → Formulas Q → List (Formula Q) → List (Formula Q)
  unfolding add
  add_disjuncts b nil clauses = clauses
  add_disjuncts b (cons f fs) clauses = add_disjuncts b fs (add (L.either f (prop b)) clauses)

  unfoldable pub cnfize_conjunction : Variable → Formulas Q → List (Formula Q) → List (Formula Q)
  unfolding add_conjuncts add negate_all
  cnfize_conjunction b fs clauses =
      add (L.either (L.make_disjunction (negate_all fs nil)) (prop b)) (add_conjuncts b fs clauses)

  unfoldable pub cnfize_disjunction : Variable → Formulas Q → List (Formula Q) → List (Formula Q)
  unfolding add_disjuncts add negate_all
  cnfize_disjunction b fs clauses =
      add_disjuncts b (negate_all fs nil) (add (L.either (L.negate (prop b)) (disj fs)) clauses)

  unfoldable pub cnfize : Variable → Formula Q → List (Formula Q) → Option (List (Formula Q))
  unfolding cnfize_conjunction cnfize_disjunction add_iff
  cnfize b (conj fs) clauses = some (cnfize_conjunction b fs clauses)
  cnfize b (disj fs) clauses = some (cnfize_disjunction b fs clauses)
  cnfize b (neg f) clauses = some (add_iff (prop b) (neg f) clauses)
  cnfize b f clauses = none

  -- The definition of the head stands for itself.
  unfoldable pub push_head : Formula Q → List (Formula Q) → List (Formula Q)
  unfolding push_all
  push_head (conj fs) clauses = push_all fs clauses
  push_head f clauses = clauses ++ f ∷ []

  -- The loop of `Convert` over `map_`.
  unfoldable pub collect :
      Variable → List (Variable × Formula Q) → List (Formula Q) → Option (List (Formula Q))
  unfolding push_head cnfize
  collect head [] clauses = some clauses
  collect head ((b, f) ∷ m) clauses =
      elim (if head.id == b.id then some (push_head f clauses) else cnfize b f clauses) [
        | none ↦ none
        | some clauses' ↦ collect head m clauses'
      ]

module _ {Q : Type 0} (L : Library Q) (naive : Formula Q → Formula Q) where
  abbrev pub visit_forall : Formulas Q → State Q → Formula Q × State Q
  visit_forall (cons c nil) s = (c, s)
  visit_forall cs s = (
    prop (fresh s.next),
    record_definition L (fresh s.next) (L.make_conjunction cs) (record s { next = s.next + 1 }),
  )

  unfoldable mutual
    unfolding emplace insert is_atomic quantify_all

    pub visit : Formula Q → State Q → Formula Q × State Q
    visit bot s = (bot, s)
    visit top s = (top, s)
    visit (prop v) s = (prop v, s)
    visit (eq d e) s = (eq d e, s)
    visit (neq d e) s = (neq d e, s)
    visit (gt d e) s = (gt d e, s)
    visit (geq d e) s = (geq d e, s)
    visit (lt d e) s = (lt d e, s)
    visit (leq d e) s = (leq d e, s)
    visit (conj fs) s =
        let (ops, s') = visit_all fs nil s in
        (
          prop (fresh s'.next),
          record_definition L (fresh s'.next) (L.make_conjunction ops)
              (record s' { next = s'.next + 1 }),
        )
    visit (disj fs) s =
        let (ops, s') = visit_all fs nil s in
        (
          prop (fresh s'.next),
          record_definition L (fresh s'.next) (L.make_disjunction ops)
              (record s' { next = s'.next + 1 }),
        )
    visit (neg f) s =
        let (g, s') = visit f (record s { next = s.next + 1 }) in
        if is_atomic f
        then (neg f, s)
        else (prop (fresh s.next), record_definition L (fresh s.next) (L.negate g) s')
    visit (forall vs f) s = visit_forall (quantify_all L vs (get_clauses (naive f)) nil) s

    -- The operands, put into a set.
    pub visit_all : Formulas Q → Formulas Q → State Q → Formulas Q × State Q
    visit_all nil result s = (result, s)
    visit_all (cons f fs) result s = let (g, s') = visit f s in visit_all fs (insert L g result) s'

  -- The clauses of the head and of the definitions.
  unfoldable pub clauses_of : Formula Q → List (Variable × Formula Q) → Option (List (Formula Q))
  unfolding collect
  clauses_of head [] = some (head ∷ [])
  clauses_of (prop v) (entry ∷ m) = collect L v (entry ∷ m) []
  clauses_of head (entry ∷ m) = none

  -- `Convert`, with `n` the first identifier that is free.
  unfoldable pub convert : Formula Q → ℕ → Option (List (Formula Q))
  unfolding visit clauses_of
  convert f n = let (head, s) = visit f (record { map = []; next = n }) in clauses_of head s.map
