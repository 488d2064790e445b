-- ===== src/PlaistedGreenbaum.antt =====
-- dreal/util/plaisted_greenbaum_cnfizer.cc: the conversion to clauses that the solvers use. The
-- members `aux_` and `vars_` are the state; `next` is the identifier that the next variable gets
-- (`static size_t id` numbers the names, and `Variable` draws its identifier from a counter).
pub mod Sound
pub mod Fresh
pub mod Extend
pub mod Complete
use dlinear.Base.{ℕ, ◌+◌, Bool, true, if◌then◌else◌, List, [], ◌∷◌, ◌++◌}
use dlinear.Symbolic.Syntax.{
  Variable, Variables, boolean, Formula, Formulas, bot, top, prop, eq, neq, gt, geq, lt, leq, conj,
  disj, neg, forall, nil, cons,
}
use dlinear.Symbolic.Library.{Library, insert}
use dlinear.Symbolic.Kinds.{get_clauses, have_intersection}
use dlinear.Nnfizer

pub record State (Q : Type 0) : Type 0 where
  pub aux : List (Formula Q)
  pub vars : List Variable
  pub next : ℕ

-- The variable that `declare` adds.
abbrev pub fresh : ℕ → Variable
fresh n = record { id = n; type = boolean }

module _ {Q : Type 0} where
  abbrev pub declare : State Q → State Q
  declare s = record s { vars = s.vars ++ fresh s.next ∷ []; next = s.next + 1 }

  abbrev pub emit : Formula Q → State Q → State Q
  emit f s = record s { aux = s.aux ++ f ∷ [] }

module _ {Q : Type 0} (L : Library Q) where
  -- `new_clause_set.insert(temp.begin(), temp.end())`.
  unfoldable pub insert_all : Formulas Q → Formulas Q → Formulas Q
  insert_all nil result = result
  insert_all (cons f fs) result = insert_all fs (insert L f result)

  -- The clause with `¬b` put in.
  unfoldable pub guarded : Variable → Formula Q → Formula Q
  unfolding insert_all insert
  guarded b (disj fs) = L.make_disjunction (insert_all fs (cons (L.negate (prop b)) nil))
  guarded b f = L.make_disjunction (insert L f (cons (L.negate (prop b)) nil))

  -- One clause of a quantified formula, with its quantifier where they share a variable.
  abbrev pub quantified : Variable → Variables → Formula Q → Formula Q
  quantified b vs c =
      if have_intersection (L.free_variables c) vs
      then L.make_forall vs (guarded b c)
      else guarded b c

  unfoldable pub emit_clauses : Variable → Variables → Formulas Q → State Q → State Q
  emit_clauses b vs nil s = s
  emit_clauses b vs (cons c cs) s = emit_clauses b vs cs (emit (quantified b vs c) s)

module _ {Q : Type 0} (L : Library Q) (naive : Formula Q → Formula Q) where
  unfoldable mutual
    pub visit : Formula Q → State Q → Formula Q × State Q
    visit bot s = (bot, s)
    visit top s = (top, s)
    visit (prop v) s = (prop v, s)
    visit (eq d e) s = (eq d e, s)
    visit (neq d e) s = (neq d e, s)
    visit (gt d e) s = (gt d e, s)
    visit (geq d e) s = (geq d e, s)
    visit (lt d e) s = (lt d e, s)
    visit (leq d e) s = (leq d e, s)
    visit (conj fs) s = (prop (fresh s.next), visit_conjuncts fs (fresh s.next) (declare s))
    visit (disj fs) s =
        let (clause, s') = visit_disjuncts fs nil (declare s) in
        (
          prop (fresh s.next),
          emit (L.make_disjunction (insert L (L.negate (prop (fresh s.next))) clause)) s',
        )
    visit (neg f) s = (neg f, s)
    visit (forall vs f) s =
        (prop (fresh s.next), emit_clauses L (fresh s.next) vs (get_clauses (naive f)) (declare s))

    pub visit_conjuncts : Formulas Q → Variable → State Q → State Q
    visit_conjuncts nil b s = s
    visit_conjuncts (cons f fs) b s =
        let (g, s') = visit f s in visit_conjuncts fs b (emit (L.either (L.negate (prop b)) g) s')

    pub visit_disjuncts : Formulas Q → Formulas Q → State Q → Formulas Q × State Q
    visit_disjuncts nil clause s = (clause, s)
    visit_disjuncts (cons f fs) clause s =
        let (g, s') = visit f s in visit_disjuncts fs (insert L g clause) s'

  -- The clauses, the variables and the counter after `Convert`.
  unfoldable pub convert : Formula Q → ℕ → State Q
  unfolding visit
  convert f n =
      let (head, s) = visit (Nnfizer.convert L f true) (record { aux = []; vars = []; next = n }) in
      emit head s
