-- ===== src/Examples/Numbers.antt =====
-- Five numbers, from -2 to 2, with sums and differences that stop at the ends.
use dlinear.Base.{
  ℕ, zero, suc, ◌+◌, ◌-◌, ◌≤◌, Bool, true, not, ◌&&◌, ◌≡◌, refl, sym, ◌∙◌, ap, ◌==◌, ltb, arith,
}
use dlinear.Symbolic.Meaning.{Structure, IsOrdered}

pub data Small : Type 0 where
  minus_two minus_one nought plus_one plus_two : Small

abbrev pub rank : Small → ℕ
rank minus_two = 0
rank minus_one = 1
rank nought = 2
rank plus_one = 3
rank plus_two = 4

abbrev pub of_rank : ℕ → Small
of_rank zero = minus_two
of_rank (suc zero) = minus_one
of_rank (suc (suc zero)) = nought
of_rank (suc (suc (suc zero))) = plus_one
of_rank (suc (suc (suc (suc n)))) = plus_two

of_rank-rank : (a : Small) → of_rank (rank a) ≡ a
of_rank-rank minus_two = refl
of_rank-rank minus_one = refl
of_rank-rank nought = refl
of_rank-rank plus_one = refl
of_rank-rank plus_two = refl

abbrev pub every : (Small → Bool) → Bool
every p = p minus_two && p minus_one && p nought && p plus_one && p plus_two

pub every-holds : (p : Small → Bool) → every p ≡ true → (x : Small) → p x ≡ true
every-holds p h minus_two = ground (arith)
every-holds p h minus_one = ground (arith)
every-holds p h nought = ground (arith)
every-holds p h plus_one = ground (arith)
every-holds p h plus_two = ground (arith)

pub holds-every : (p : Small → Bool) → ((x : Small) → p x ≡ true) → every p ≡ true
holds-every p h = ground (arith, h minus_two, h minus_one, h nought, h plus_one, h plus_two)

pub trichotomy :
    (a b : Small)
    → (rank a == rank b) ≡ (not (ltb (rank a) (rank b)) && not (ltb (rank b) (rank a)))
trichotomy a b = ground (arith)

unfoldable pub small : Structure Small
small = record {
  equal = λ a b. rank a == rank b;
  less = λ a b. ltb (rank a) (rank b);
  zero = nought;
  one = plus_one;
  plus = λ a b. of_rank (rank a + rank b - 2);
  minus = λ a b. of_rank (rank a + 2 - rank b);
  times = λ a b. a;
  half = plus_one;
  pow = λ a b. a;
  apply_unary = λ op a. a;
  apply_binary = λ op a b. a;
  apply_uninterpreted = λ name xs. nought;
  every = every;
  trichotomy = trichotomy;
  every_iff = λ p. (every-holds p, holds-every p);
}

pub small-IsOrdered : IsOrdered small
unfolding small
small-IsOrdered = record {
  eq_of_equal = λ a b h. sym (of_rank-rank a) ∙ ap of_rank (ground (arith)) ∙ of_rank-rank b;
  less_asym = λ a b h. ground (arith);
  le_trans = λ a b c h k. ground (arith);
}

rank-of_rank : (n : ℕ) → n ≤ 4 → rank (of_rank n) ≡ n
rank-of_rank zero h = refl
rank-of_rank (suc zero) h = refl
rank-of_rank (suc (suc zero)) h = refl
rank-of_rank (suc (suc (suc zero))) h = refl
rank-of_rank (suc (suc (suc (suc n)))) h = omega (arith, h)

rank_bounded : (a : Small) → rank a ≤ 4
rank_bounded a = ground (arith)
