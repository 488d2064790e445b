-- ===== src/Examples/Exact.antt =====
-- A linear program as SoPlex keeps it, and an optimizer for the problems with one point.
use dlinear.Base.{
  ℕ, zero, suc, ◌+◌, Bool, true, false, not, ◌&&◌, ◌≡◌, refl, sym, ap, ◌∙◌, subst, List, [], ◌∷◌,
  ◌++◌, ◌==◌, length, length-append, if◌then◌else◌, ℤ, pos, negsuc, ==ℤ, ==ℤ_iff, ltb_ℤ, arith,
}
use dlinear.Box.{get_elem?}
use dlinear.SatSolver.Linear.{Soplex}
use dlinear.SatSolver.Linear.Columns.{IsSoplex}
use dlinear.SatSolver.Linear.Problem.{Row, set_range, IsProblem}
use dlinear.TheorySolver.{Status, optimal, infeasible, Optimizer}
use dlinear.TheorySolver.Bounds.{Within}
use dlinear.TheorySolver.Laws.{IsOptimizer}
use dlinear.Context.Shared.{IsShared}
use dlinear.Context.Refutes.{satisfies}
use dlinear.Examples.Integers.{integers}

-- The rows, the number of columns and the bounds.
pub record Program : Type 0 where
  pub rows : List (Row ℤ)
  pub cols : ℕ
  pub lower : List ℤ
  pub upper : List ℤ

abbrev pub infinity : ℤ
infinity = pos 100

abbrev pub soplex : Soplex ℤ Program
soplex = record {
  num_rows = λ p. length p.rows;
  num_cols = λ p. p.cols;
  clear_basis = λ p. p;
  add_row =
      λ lo cs hi p. record p { rows = p.rows ++ record { lo = lo; coeffs = cs; hi = hi } ∷ [] };
  add_col = λ c es up low p. record p { cols = p.cols + 1 };
  change_range = λ i lo hi p. record p { rows = set_range i lo hi p.rows };
  change_bounds = λ i lo hi p. p;
}

pub soplex-IsSoplex : IsSoplex soplex
soplex-IsSoplex = record {
  num_rows-add_row = λ a b cs p. length-append p.rows (record { lo = a; coeffs = cs; hi = b } ∷ []);
  num_cols-add_row = λ a b cs p. refl;
  num_rows-add_col = λ a b c cs p. refl;
  num_cols-add_col = λ a b c cs p. refl;
}

pub soplex-IsProblem : IsProblem soplex (λ p. p.rows)
soplex-IsProblem = record {
  rows-add_row = λ lo hi cs p. refl;
  rows-add_col = λ c up low p. refl;
  rows-change_range = λ i lo hi p. refl;
  rows-change_bounds = λ i lo hi p. refl;
  rows-clear_basis = λ p. refl;
  num_rows-length = λ p. refl;
  num_cols-change_range = λ i lo hi p. refl;
  num_cols-change_bounds = λ i lo hi p. refl;
  num_cols-clear_basis = λ p. refl;
}

abbrev pub rows_of : Program → List (Row ℤ)
rows_of p = p.rows

-- Both bounds are one number, in every column.
abbrev pinned : List ℤ → List ℤ → Bool
pinned [] [] = true
pinned (l ∷ ls) (u ∷ us) = ==ℤ l u && pinned ls us
pinned _ _ = false

abbrev decided : Program → Bool
decided p = pinned p.lower p.upper && (length p.lower == p.cols)

-- An optimizer that decides a problem with one point only.
abbrev status_of : Program → Status
status_of p =
    if decided p && not (satisfies integers infinity rows_of p p.lower) then infeasible else optimal

abbrev pub optimizer : Optimizer ℤ Program
optimizer = record {
  num_rows = λ p. length p.rows;
  num_cols = λ p. p.cols;
  change_lower = λ l p. record p { lower = l };
  change_upper = λ u p. record p { upper = u };
  optimize = λ p. (status_of p, p);
  get_primal = λ x p. (decided p && satisfies integers infinity rows_of p p.lower, p.lower);
  get_obj = λ p. [];
}

pub shared : IsShared soplex optimizer rows_of
shared = record {
  same_cols = λ p. refl;
  same_rows = λ p. refl;
  cols-change_lower = λ l p. refl;
  cols-change_upper = λ u p. refl;
  cols-optimize = λ p. refl;
  rows-change_lower = λ l p. refl;
  rows-change_upper = λ u p. refl;
  rows-optimize = λ p. refl;
}

one_point :
    (lower upper x : List ℤ)
    → pinned lower upper ≡ true
    → length x ≡ length lower
    → Within integers lower upper x
    → x ≡ lower
unfolding get_elem? integers
one_point [] [] [] h k w = refl
one_point (l ∷ ls) (u ∷ us) (a ∷ x) h k w =
    let tail = one_point ls us x (ground (arith)) (omega (arith, k)) (λ col b e. w (suc col) b e) in
    let head : a ≡ l = ground (arith, w 0 a refl, ==ℤ_iff l u) in
    ap (λ b. b ∷ x) head ∙ ap (λ y. l ∷ y) tail
one_point [] [] (a ∷ x) h k w = absurd (omega (arith, k))
one_point (l ∷ ls) (u ∷ us) [] h k w = absurd (omega (arith, k))
one_point [] (u ∷ us) x h k w = absurd (ground (arith))
one_point (l ∷ ls) [] x h k w = absurd (ground (arith))

refutes :
    (lower upper x : List ℤ) (p : Program)
    → status_of (record p { lower = lower; upper = upper }) ≡ infeasible
    → length x ≡ p.cols
    → Within integers lower upper x
    → satisfies integers infinity rows_of p x ≡ false
refutes lower upper x p h k w =
    let same = one_point lower upper x (ground (arith)) (ground (arith)) w in
    subst (λ y. satisfies integers infinity rows_of p y ≡ false) (sym same) (ground (arith))

not_less_self : (a : ℤ) → ltb_ℤ a a ≡ false
not_less_self (pos n) = ground (arith)
not_less_self (negsuc n) = ground (arith)

the_point-Within :
    (lower upper : List ℤ) → pinned lower upper ≡ true → Within integers lower upper lower
unfolding get_elem? integers
the_point-Within [] [] h col a e = absurd (ground (arith))
the_point-Within (l ∷ ls) (u ∷ us) h zero a e =
    let same : l ≡ u = (==ℤ_iff l u).0 (ground (arith)) in
    let here : l ≡ a = ground (arith) in ground (arith, not_less_self a, same, here)
the_point-Within (l ∷ ls) (u ∷ us) h (suc col) a e = the_point-Within ls us (ground (arith)) col a e
the_point-Within [] (u ∷ us) h col a e = absurd (ground (arith))
the_point-Within (l ∷ ls) [] h col a e = absurd (ground (arith))

solves :
    (lower upper x : List ℤ) (p : Program)
    → decided (record p { lower = lower; upper = upper }) ≡ true
    → satisfies integers infinity rows_of p lower ≡ true
    → lower ≡ x
    → Within integers lower upper x × (satisfies integers infinity rows_of p x ≡ true)
solves lower upper x p only met same = (
  subst (Within integers lower upper) same (the_point-Within lower upper (ground (arith))),
  subst (λ y. satisfies integers infinity rows_of p y ≡ true) same met,
)

pub optimizer-IsOptimizer : IsOptimizer integers optimizer (satisfies integers infinity rows_of)
optimizer-IsOptimizer = record {
  solution = λ lower upper x0 x p h e.
      solves lower upper x p (ground (arith)) (ground (arith)) (ground (arith));
  no_solution = refutes;
}
