-- ===== src/SatSolver/Clauses/Store.antt =====
-- Adding a clause stores it, and keeps the clauses that were there.
use dlinear.Base.{
  ℕ, zero, suc, true, false, ◌≡◌, refl, sym, ◌∙◌, ap, List, [], ◌∷◌, ◌++◌, length, drop, All,
  All-imp, arith, ℤ, pos, ==ℤ_iff, is_zero_ℤ, append_assoc, append-nil,
}
use dlinear.SatSolver.Clauses.{Clauses, update_lookup, begin_clause, end_clause}
use dlinear.SatSolver.Clauses.Cover.{IsMain, occurs}

-- The calls of `UpdateLookup` between the two.
unfoldable pub update_all : List ℤ → Clauses → Clauses
unfolding update_lookup
update_all [] s = s
update_all (i ∷ is) s = update_all is (update_lookup i false s)

unfoldable pub add_clause : List ℤ → Clauses → Clauses
unfolding begin_clause update_all end_clause
add_clause clause s = end_clause (update_all clause (begin_clause s))

update_all-copy :
    (is : List ℤ) (s : Clauses)
    → ((update_all is s).main_clauses_copy ≡ s.main_clauses_copy ++ is)
      × ((update_all is s).cur_clause_start ≡ s.cur_clause_start)
unfolding update_all update_lookup
update_all-copy [] s = (sym (append-nil s.main_clauses_copy), refl)
update_all-copy (i ∷ is) s =
    let (copied, start) = update_all-copy is (update_lookup i false s) in
    (copied ∙ append_assoc s.main_clauses_copy (i ∷ []) is, start)

update_all-kept :
    (is : List ℤ) (s : Clauses) (c : ℕ) (k : ℤ)
    → occurs c (s.main_clause_lookup k) ≡ true
    → occurs c ((update_all is s).main_clause_lookup k) ≡ true
unfolding update_all update_lookup
update_all-kept [] s c k h = h
update_all-kept (i ∷ is) s c k h = update_all-kept is (update_lookup i false s) c k (ground (arith))

update_all-found :
    (is : List ℤ) (s : Clauses)
    → All (λ k. occurs s.cur_clause_start ((update_all is s).main_clause_lookup k) ≡ true) is
unfolding update_all update_lookup
update_all-found [] s = tt
update_all-found (i ∷ is) s = (
  update_all-kept is (update_lookup i false s) s.cur_clause_start i (ground (arith, ==ℤ_iff i i)),
  update_all-found is (update_lookup i false s),
)

add_clause-copy :
    (clause : List ℤ) (s : Clauses)
    → (add_clause clause s).main_clauses_copy ≡ s.main_clauses_copy ++ (clause ++ pos 0 ∷ [])
unfolding add_clause
add_clause-copy clause s =
    ap (λ m. m ++ pos 0 ∷ []) (update_all-copy clause (begin_clause s)).0
    ∙ append_assoc s.main_clauses_copy clause (pos 0 ∷ [])

drop-append : (xs ys : List ℤ) → drop (length xs) (xs ++ ys) ≡ ys
drop-append [] ys = refl
drop-append (x ∷ xs) ys = drop-append xs ys

-- What stands before the end of the copy stays.
drop-append_kept :
    (n : ℕ) (xs ys zs : List ℤ) (y : ℤ)
    → drop n xs ≡ ys ++ y ∷ zs
    → (more : List ℤ) → drop n (xs ++ more) ≡ ys ++ y ∷ (zs ++ more)
drop-append_kept zero xs ys zs y h more = ap (λ m. m ++ more) h ∙ append_assoc ys (y ∷ zs) more
drop-append_kept (suc n) [] [] zs y h more = ground (arith)
drop-append_kept (suc n) [] (z ∷ ys) zs y h more = ground (arith)
drop-append_kept (suc n) (x ∷ xs) ys zs y h more = drop-append_kept n xs ys zs y h more

-- A clause of nonzero literals that is added between the first and the last line of `DoAddClause`
-- is then a main clause: it is stored at the old end of the copy, and every literal of it is looked
-- up there.
pub add_clause-IsMain :
    (s : Clauses) (clause : List ℤ)
    → All (λ i. is_zero_ℤ i ≡ false) clause
    → IsMain (add_clause clause s) (length s.main_clauses_copy) clause
unfolding add_clause begin_clause end_clause
add_clause-IsMain s clause nonzero = record {
  rest = [];
  stored =
      ap (drop (length s.main_clauses_copy)) (add_clause-copy clause s)
      ∙ drop-append s.main_clauses_copy (clause ++ pos 0 ∷ []);
  no_zero = nonzero;
  found = update_all-found clause (begin_clause s);
}

-- A main clause is still one, at the same place, after another clause is added.
add_clause-kept :
    (s : Clauses) (clause old : List ℤ) (c : ℕ)
    → IsMain s c old
    → IsMain (add_clause clause s) c old
unfolding add_clause begin_clause end_clause
add_clause-kept s clause old c main = record {
  rest = main.rest ++ (clause ++ pos 0 ∷ []);
  stored =
      ap (drop c) (add_clause-copy clause s)
      ∙ drop-append_kept c s.main_clauses_copy old main.rest (pos 0) main.stored
          (clause ++ pos 0 ∷ []);
  no_zero = main.no_zero;
  found = All-imp (λ k. update_all-kept clause (begin_clause s) c k) old main.found;
}
