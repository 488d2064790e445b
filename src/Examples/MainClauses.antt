-- ===== src/Examples/MainClauses.antt =====
-- Two clauses, and the literals that are kept of them.
use dlinear.Base.{ℕ, ◌≤◌, refl, Bool, true, Option, some, [], ◌∷◌, arith, pos, negsuc}
use dlinear.SatSolver.Clauses.{Clauses, insert, assigned, member, get_main_active_literals}
use dlinear.SatSolver.Clauses.Cover.{IsMain, hits, get_main_active_literals-hits}
use dlinear.SatSolver.Clauses.Store.{add_clause, add_clause-IsMain}

-- The clause `1 ∨ -2`, then `2 ∨ 3`, from the first position.
abbrev pub before : Clauses
before = record {
  main_clauses_copy = pos 1 ∷ negsuc 1 ∷ pos 0 ∷ [];
  learned_clause_lits = [];
  main_clause_lookup = λ k. 0 ∷ [];
  cur_clause_start = 0;
}

before-IsMain : IsMain before 0 (pos 1 ∷ negsuc 1 ∷ [])
before-IsMain = record {
  rest = [];
  stored = refl;
  no_zero = (refl, (refl, tt));
  found = (refl, (refl, tt));
}

add_clause-IsMain_example : IsMain (add_clause (pos 2 ∷ pos 3 ∷ []) before) 3 (pos 2 ∷ pos 3 ∷ [])
add_clause-IsMain_example = add_clause-IsMain before (pos 2 ∷ pos 3 ∷ []) (refl, (refl, tt))

-- Both variables are true.
abbrev pub value : ℕ → Option Bool
value n = some true

satisfied : 1 ≤ hits (assigned value 2) (pos 1 ∷ negsuc 1 ∷ [])
unfolding assigned member insert
satisfied = ground (arith)

get_main_active_literals-hits_example :
    1 ≤ hits (get_main_active_literals before value 2) (pos 1 ∷ negsuc 1 ∷ [])
unfolding member
get_main_active_literals-hits_example =
    get_main_active_literals-hits before 0 (pos 1 ∷ negsuc 1 ∷ []) value 2 before-IsMain
      (refl, (refl, tt)) satisfied
