-- ===== src/SatSolver/Solver.antt =====
-- dreal/solver/soplex_sat_solver.cc: the operations of `SoplexSatSolver`. Picosat is a parameter; a
-- call that throws returns `none`.
pub mod Stored
pub mod Sound
pub mod Kept
pub mod Checked
pub mod Enforced
use dlinear.Base.{
  ℕ, zero, suc, ◌+◌, Bool, true, false, not, Option, none, some, List, [], ◌∷◌, ◌++◌, if◌then◌else◌,
  ◌==◌, ℤ, pos, negsuc, signed, abs_ℤ, is_zero_ℤ,
}
use dlinear.Symbolic.Syntax.{
  Variable, Variables, Expression, Formula, Formulas, prop, disj, neg, nil, cons,
}
use dlinear.Symbolic.Meaning.{Structure}
use dlinear.Symbolic.Library.{Library}
use dlinear.PredicateAbstractor as Abstractor
use dlinear.PlaistedGreenbaum as Cnfizer
use dlinear.Scoped.Table.{ScopedMap}
use dlinear.Scoped.Table as Table
use dlinear.Scoped.Collection.{ScopedSet}
use dlinear.Scoped.Collection as Collection
use dlinear.Box.{Box}
use dlinear.SatSolver.Linear.{Soplex, Linear, enable_linear_literal, reset_linear_problem}
use dlinear.SatSolver.Linear.Rows.{add_linear_literal}
use dlinear.SatSolver.Clauses.{
  Clauses, update_lookup, begin_clause, end_clause, get_main_active_literals,
}

pub data Answer : Type 0 where
  satisfiable unsatisfiable unknown : Answer

-- The calls of picosat on a solver of type `Z`; `none` is the value 0 of `picosat_deref`.
pub record Picosat (Z : Type 0) : Type 0 where
  pub inc_max_var : Z → ℕ × Z
  pub add : ℤ → Z → Z
  pub variables : Z → ℕ
  pub sat : Z → Answer × Z
  pub deref : Z → ℕ → Option Bool
  pub deref_partial : Z → ℕ → Option Bool

-- `next` of the abstractor is the counter that all new variables draw from.
pub record Solver (Q P Z : Type 0) : Type 0 where
  pub sat : Z
  pub abstractor : Abstractor.State Q
  pub to_sat_var : ScopedMap ℕ ℕ
  pub to_sym_var : ScopedMap ℕ Variable
  pub clauses : Clauses
  pub cnf_variables : ScopedSet ℕ
  pub linear : Linear Q P
  pub has_picosat_pop_used : Bool

-- `SoplexSatSolver::Model`: the Boolean and the theory literals.
abbrev pub Model : Type 0
Model = List (Variable × Bool) × List (Variable × Bool)

-- The constructor: `sat` and `prob` are the new solvers, and `next` the counter of variables.
unfoldable pub initial : {Q P Z : Type 0} → Z → P → ℕ → Solver Q P Z
initial sat prob next = record {
  sat = sat;
  abstractor = record { var_to_formula = []; formula_to_var = []; next = next };
  to_sat_var = record { actions = []; stack = []; map = [] };
  to_sym_var = record { actions = []; stack = []; map = [] };
  clauses = record {
    main_clauses_copy = [];
    learned_clause_lits = [];
    main_clause_lookup = λ k. [];
    cur_clause_start = 0;
  };
  cnf_variables = record { actions = []; stack = []; set = [] };
  linear = record {
    prob = prob;
    lower = [];
    upper = [];
    to_col = [];
    from_col = [];
    to_row = [];
    from_row = [];
    rhs = [];
    sense = [];
  };
  has_picosat_pop_used = false;
}

abbrev pub same_id : ℕ → ℕ → Bool
same_id i j = i == j

module _ {Q P Z : Type 0} (S : Structure Q) (infinity : Q) (X : Soplex Q P) (L : Library Q)
    (I : Picosat Z) where
  unfoldable pub make_sat_var : Variable → Solver Q P Z → Solver Q P Z
  make_sat_var v s = elim (Table.at same_id s.to_sat_var v.id) [
    | some lit ↦ s
    | none ↦
        let (sat_var, sat) = I.inc_max_var s.sat in
        record s {
          sat = sat;
          to_sat_var = Table.insert same_id v.id sat_var s.to_sat_var;
          to_sym_var = Table.insert same_id sat_var v s.to_sym_var;
        }
  ]

  unfoldable pub make_sat_vars : Variables → Solver Q P Z → Solver Q P Z
  unfolding make_sat_var
  make_sat_vars [] s = s
  make_sat_vars (v ∷ vs) s = make_sat_vars vs (make_sat_var v s)

  module _ (difference : Expression Q → Expression Q → Expression Q) (phase : ℕ) where
    -- `AddLiteral(l, learned)`.
    unfoldable pub add_signed : Variable → Bool → Bool → Solver Q P Z → Option (Solver Q P Z)
    unfolding update_lookup add_linear_literal Abstractor.find_formula
    add_signed v sign learned s = elim (Table.at same_id s.to_sat_var v.id) [
      | none ↦ none
      | some sat_var ↦
          let lit = signed sign sat_var in
          let s1 : Solver Q P Z = record s {
            sat = I.add lit s.sat;
            clauses = update_lookup lit learned s.clauses;
          } in
          if learned
          then some s1
          else let theory = Abstractor.find_formula v s.abstractor.var_to_formula in
            elim (add_linear_literal S infinity X difference L.free_variables phase v sign theory
              s.linear) [ none ↦ none | some linear ↦ some (record s1 { linear = linear }) ]
    ]

    -- `AddLiteral(f)`.
    unfoldable pub add_literal : Formula Q → Solver Q P Z → Option (Solver Q P Z)
    unfolding add_signed
    add_literal (prop v) s = add_signed v true false s
    add_literal (neg (prop v)) s = add_signed v false false s
    add_literal _ s = none

    unfoldable pub add_literals : Formulas Q → Solver Q P Z → Option (Solver Q P Z)
    unfolding add_literal
    add_literals nil s = some s
    add_literals (cons f fs) s = elim (add_literal f s) [
      | none ↦ none
      | some s' ↦ add_literals fs s'
    ]

    abbrev pub operands_of : Formula Q → Formulas Q
    operands_of (disj fs) = fs
    operands_of f = cons f nil

    unfoldable pub do_add_clause : Formula Q → Solver Q P Z → Option (Solver Q P Z)
    unfolding begin_clause add_literals end_clause
    do_add_clause f s =
        elim (add_literals (operands_of f) (record s { clauses = begin_clause s.clauses })) [
          | none ↦ none
          | some s' ↦
              some (record s' { sat = I.add (pos 0) s'.sat; clauses = end_clause s'.clauses })
        ]

    unfoldable pub add_clause : Formula Q → Solver Q P Z → Option (Solver Q P Z)
    unfolding make_sat_vars do_add_clause
    add_clause f s = do_add_clause f (make_sat_vars (L.free_variables f) s)

    unfoldable pub add_clauses : List (Formula Q) → Solver Q P Z → Option (Solver Q P Z)
    unfolding add_clause
    add_clauses [] s = some s
    add_clauses (f ∷ fs) s = elim (add_clause f s) [ none ↦ none | some s' ↦ add_clauses fs s' ]

    unfoldable pub insert_ids : List Variable → ScopedSet ℕ → ScopedSet ℕ
    insert_ids [] c = c
    insert_ids (v ∷ vs) c = insert_ids vs (Collection.insert same_id v.id c)

    unfoldable pub abstract_all :
        List (Formula Q) → Abstractor.State Q → List (Formula Q) × Abstractor.State Q
    abstract_all [] a = ([], a)
    abstract_all (f ∷ fs) a =
        let (g, a1) = Abstractor.convert L f a in let (gs, a2) = abstract_all fs a1 in (g ∷ gs, a2)

    unfoldable pub add_formula :
        (Formula Q → Formula Q) → Formula Q → Solver Q P Z → Option (Solver Q P Z)
    unfolding insert_ids abstract_all add_clauses
    add_formula naive f s =
        let cnf = Cnfizer.convert L naive f s.abstractor.next in
        let (clauses, a) = abstract_all cnf.aux (record (s.abstractor) { next = cnf.next }) in
        add_clauses clauses
          (record s { abstractor = a; cnf_variables = insert_ids cnf.vars s.cnf_variables })

    unfoldable pub add_learned_literals :
        List (Variable × Bool) → Solver Q P Z → Option (Solver Q P Z)
    unfolding add_signed
    add_learned_literals [] s = some s
    add_learned_literals ((v, sign) ∷ ls) s = elim (add_signed v (not sign) true s) [
      | none ↦ none
      | some s' ↦ add_learned_literals ls s'
    ]

    unfoldable pub add_learned_clause :
        List (Variable × Bool) → Solver Q P Z → Option (Solver Q P Z)
    unfolding add_learned_literals
    add_learned_clause ls s = elim (add_learned_literals ls s) [
      | none ↦ none
      | some s' ↦ some (record s' { sat = I.add (pos 0) s'.sat })
    ]

  abbrev pub is_positive : ℤ → Bool
  is_positive (pos (suc n)) = true
  is_positive _ = false

  -- The loop of `CheckSat` over the active literals.
  unfoldable pub collect : Solver Q P Z → List ℤ → Linear Q P → Option (Model × Linear Q P)
  unfolding enable_linear_literal Abstractor.find_formula
  collect s [] l = some (([], []), l)
  collect s (i ∷ is) l =
      let rest = collect s is l in
      elim (Table.at same_id s.to_sym_var (abs_ℤ i)) [
        | none ↦ rest
        | some v ↦ elim (Abstractor.find_formula v s.abstractor.var_to_formula) [
          | some f ↦ elim (enable_linear_literal S infinity X v (is_positive i) (some f) l) [
            | none ↦ none
            | some l1 ↦ elim (collect s is l1) [
              | none ↦ none
              | some ((bools, theory), l2) ↦ some ((bools, (v, is_positive i) ∷ theory), l2)
            ]
          ]
          | none ↦ elim rest [
            | none ↦ none
            | some ((bools, theory), l2) ↦
                if Collection.count same_id s.cnf_variables v.id == 0
                then some (((v, is_positive i) ∷ bools, theory), l2)
                else some ((bools, theory), l2)
          ]
        ]
      ]

  -- `CheckSat`: no result is a throw, and no model is unsatisfiability.
  unfoldable pub check_sat : Box Q → Solver Q P Z → Option (Option Model × Solver Q P Z)
  unfolding collect reset_linear_problem get_main_active_literals
  check_sat box s =
      let (answer, sat) = I.sat s.sat in
      let s1 : Solver Q P Z = record s { sat = sat } in
      elim answer [
        | unknown ↦ none
        | unsatisfiable ↦ some (none, s1)
        | satisfiable ↦
            let value = if s.has_picosat_pop_used then I.deref sat else I.deref_partial sat in
            let lits = get_main_active_literals s.clauses value (I.variables sat) in
            elim (collect s1 lits (reset_linear_problem S infinity X box s.linear)) [
              | none ↦ none
              | some (model, linear) ↦ some (some model, record s1 { linear = linear })
            ]
      ]
