-- ===== src/SatSolver/Clauses.antt =====
-- dreal/solver/soplex_sat_solver.cc: the copy of the main clauses, and the choice of the literals
-- that they need. Each clause of the copy ends with a zero.
pub mod Cover
pub mod Store
use dlinear.Base.{
  ℕ, zero, suc, ◌+◌, Bool, true, false, not, ◌||◌, Option, none, some, List, [], ◌∷◌, ◌++◌, length,
  drop, if◌then◌else◌, ◌==◌, ℤ, pos, negsuc, signed, ==ℤ, ltb_ℤ,
}

pub record Clauses : Type 0 where
  pub main_clauses_copy : List ℤ
  pub learned_clause_lits : List ℤ
  pub main_clause_lookup : ℤ → List ℕ
  pub cur_clause_start : ℕ

unfoldable pub update_lookup : ℤ → Bool → Clauses → Clauses
update_lookup lit learned s =
    if learned then record s { learned_clause_lits = lit ∷ s.learned_clause_lits } else record s {
      main_clauses_copy = s.main_clauses_copy ++ lit ∷ [];
      main_clause_lookup = λ k.
          if ==ℤ k lit then s.cur_clause_start ∷ s.main_clause_lookup k else s.main_clause_lookup k;
    }

-- The first and the last line of `DoAddClause`.
unfoldable pub begin_clause : Clauses → Clauses
begin_clause s = record s { cur_clause_start = length s.main_clauses_copy }

unfoldable pub end_clause : Clauses → Clauses
end_clause s = record s { main_clauses_copy = s.main_clauses_copy ++ pos 0 ∷ [] }

unfoldable pub member : ℤ → List ℤ → Bool
member i [] = false
member i (k ∷ ks) = ==ℤ i k || member i ks

-- `lits.insert(i)`, for a set in ascending order.
unfoldable pub insert : ℤ → List ℤ → List ℤ
insert i [] = i ∷ []
insert i (k ∷ ks) =
    let rest = insert i ks in if ltb_ℤ i k then i ∷ k ∷ ks else if ==ℤ i k then k ∷ ks else k ∷ rest

unfoldable pub remove : ℤ → List ℤ → List ℤ
remove i [] = []
remove i (k ∷ ks) = if ==ℤ i k then remove i ks else k ∷ remove i ks

-- The literals that `value` assigns, of the variables 1 to `n`. `none` is the value 0.
unfoldable pub assigned : (ℕ → Option Bool) → ℕ → List ℤ
unfolding insert
assigned value zero = []
assigned value (suc n) = elim (value (suc n)) [
  | none ↦ assigned value n
  | some sign ↦ insert (signed sign (suc n)) (assigned value n)
]

-- The active literals of the clause that starts here.
unfoldable pub count : List ℤ → List ℤ → ℕ
unfolding member
count lits [] = 0
count lits (pos zero ∷ ks) = 0
count lits (k ∷ ks) = if member k lits then suc (count lits ks) else count lits ks

-- Some clause of the list has no other active literal.
unfoldable pub is_required : List ℤ → List ℤ → List ℕ → Bool
unfolding count
is_required copy lits [] = false
is_required copy lits (c ∷ cs) = (count lits (drop c copy) == 1) || is_required copy lits cs

-- The second loop of `GetMainActiveLiterals`.
unfoldable pub keep_required : Clauses → List ℤ → List ℤ → List ℤ
unfolding is_required remove
keep_required s [] lits = lits
keep_required s (i ∷ rest) lits =
    keep_required s rest (
      if is_required s.main_clauses_copy lits (s.main_clause_lookup i) then lits else remove i lits)

unfoldable pub get_main_active_literals : Clauses → (ℕ → Option Bool) → ℕ → List ℤ
unfolding keep_required assigned
get_main_active_literals s value n = let lits = assigned value n in keep_required s lits lits
