-- ===== src/Examples/Integers.antt =====
-- The integers as numbers. The quantifier over them is decided by excluded middle.
use Prim.Axiom.{lem}
use Prim.Native.Nat.{◌*◌}
use mathlib.Core.HLevel.{Π_prop}
use dlinear.Base.{
  ℕ, suc, ◌+◌, ◌-◌, Bool, true, false, not, ◌&&◌, ◌≡◌, ◌↔◌, refl, ap, ◌∙◌, if◌then◌else◌, ltb, ℤ,
  pos, negsuc, ==ℤ, ==ℤ_iff, ltb_ℤ, arith,
}
use dlinear.Symbolic.Meaning.{Structure, IsOrdered, value_of, sum_of}
use dlinear.Symbolic.Syntax.{Expression, addition, term, no_term}
use dlinear.SatSolver.Linear.Affine.{IsAffine}
use dlinear.SatSolver.Linear.Ranges.{IsDifference}

abbrev pos_part : ℤ → ℕ
pos_part (pos n) = n
pos_part (negsuc n) = 0

abbrev neg_part : ℤ → ℕ
neg_part (pos n) = 0
neg_part (negsuc n) = suc n

-- `a - b`.
abbrev sub_ℕ : ℕ → ℕ → ℤ
sub_ℕ a b = if ltb a b then negsuc (b - a - 1) else pos (a - b)

unfoldable pub plus_ℤ : ℤ → ℤ → ℤ
plus_ℤ a b = sub_ℕ (pos_part a + pos_part b) (neg_part a + neg_part b)

unfoldable pub minus_ℤ : ℤ → ℤ → ℤ
minus_ℤ a b = sub_ℕ (pos_part a + neg_part b) (neg_part a + pos_part b)

unfoldable pub times_ℤ : ℤ → ℤ → ℤ
times_ℤ a b =
    sub_ℕ (pos_part a * pos_part b + neg_part a * neg_part b)
      (pos_part a * neg_part b + neg_part a * pos_part b)

plus_parts :
    (a b : ℤ)
    → pos_part (plus_ℤ a b) + neg_part a + neg_part b
      ≡ neg_part (plus_ℤ a b) + pos_part a + pos_part b
unfolding plus_ℤ
plus_parts a b = ground (arith)

minus_parts :
    (a b : ℤ)
    → pos_part (minus_ℤ a b) + neg_part a + pos_part b
      ≡ neg_part (minus_ℤ a b) + pos_part a + neg_part b
unfolding minus_ℤ
minus_parts a b = ground (arith)

eq_of_parts : (a b : ℤ) → pos_part a + neg_part b ≡ pos_part b + neg_part a → a ≡ b
eq_of_parts a b h = ground (arith)

less_parts : (a b : ℤ) → ltb_ℤ a b ≡ ltb (pos_part a + neg_part b) (pos_part b + neg_part a)
less_parts a b = ground (arith)

abbrev every : (ℤ → Bool) → Bool
every p = elim (lem ((x : ℤ) → p x ≡ true) (Π_prop (λ x. hlevel))) [ yes h ↦ true | no h ↦ false ]

every_iff : (p : ℤ → Bool) → (every p ≡ true) ↔ ((x : ℤ) → p x ≡ true)
every_iff p =
    elim (lem ((x : ℤ) → p x ≡ true) (Π_prop (λ x. hlevel)))
      as (λ d. ((elim d [ yes h ↦ true | no h ↦ false ]) ≡ true) ↔ ((x : ℤ) → p x ≡ true)) [
        | yes h ↦ ((λ e. h), (λ k. refl))
        | no h ↦ ((λ e. absurd (cc)), (λ k. absurd (h k)))
      ]

pub trichotomy : (a b : ℤ) → ==ℤ a b ≡ (not (ltb_ℤ a b) && not (ltb_ℤ b a))
trichotomy a b = ground (arith)

unfoldable pub integers : Structure ℤ
unfolding plus_ℤ minus_ℤ times_ℤ every_iff
integers = record {
  equal = ==ℤ;
  less = ltb_ℤ;
  zero = pos 0;
  one = pos 1;
  plus = plus_ℤ;
  minus = minus_ℤ;
  times = times_ℤ;
  half = pos 0;
  pow = λ a b. a;
  apply_unary = λ op a. a;
  apply_binary = λ op a b. a;
  apply_uninterpreted = λ name xs. pos 0;
  every = every;
  trichotomy = trichotomy;
  every_iff = every_iff;
}

pub integers-IsOrdered : IsOrdered integers
unfolding integers
integers-IsOrdered = record {
  eq_of_equal = λ a b h. (==ℤ_iff a b).0 h;
  less_asym = λ a b h. ground (arith);
  le_trans = λ a b c h k. ground (arith);
}

times_one : (a : ℤ) → times_ℤ a (pos 1) ≡ a
unfolding times_ℤ
times_one a = ground (arith)

one_times : (a : ℤ) → times_ℤ (pos 1) a ≡ a
unfolding times_ℤ
one_times a = ground (arith)

pub integers-IsAffine : IsAffine integers
unfolding integers
integers-IsAffine = record {
  plus_assoc = λ a b c. eq_of_parts (plus_ℤ (plus_ℤ a b) c) (plus_ℤ a (plus_ℤ b c)) (
      omega (
        arith,
        plus_parts (plus_ℤ a b) c,
        plus_parts a b,
        plus_parts a (plus_ℤ b c),
        plus_parts b c,
      ));
  plus_zero = λ a. eq_of_parts _ _ (omega (arith, plus_parts a (pos 0)));
  zero_plus = λ a. eq_of_parts _ _ (omega (arith, plus_parts (pos 0) a));
  times_one = times_one;
  one_times = one_times;
  pow_one = λ a. refl;
  less_opposite = λ a c.
      let m = minus_ℤ (pos 0) c in
      let t = plus_ℤ c a in
      ground (arith, less_parts a m, less_parts t (pos 0), minus_parts (pos 0) c, plus_parts c a);
  opposite_less = λ a c.
      let m = minus_ℤ (pos 0) c in
      let t = plus_ℤ c a in
      ground (arith, less_parts m a, less_parts (pos 0) t, minus_parts (pos 0) c, plus_parts c a);
  difference_less = λ a b.
      let m = minus_ℤ a b in ground (arith, less_parts m (pos 0), less_parts a b, minus_parts a b);
  less_difference = λ a b.
      let m = minus_ℤ a b in ground (arith, less_parts (pos 0) m, less_parts b a, minus_parts a b);
}

-- `d + (-1) e`, the expanded difference of two variables.
abbrev pub difference : Expression ℤ → Expression ℤ → Expression ℤ
difference d e = addition (pos 0) (term d (pos 1) (term e (negsuc 0) no_term))

times_minus_one : (a : ℤ) → times_ℤ (negsuc 0) a ≡ minus_ℤ (pos 0) a
unfolding times_ℤ minus_ℤ
times_minus_one a = ground (arith)

pub difference-IsDifference : IsDifference integers difference
unfolding integers value_of sum_of
difference-IsDifference d e env =
    let a = value_of integers env d in
    let b = value_of integers env e in
    let minus_b = minus_ℤ (pos 0) b in
    let tail = plus_ℤ minus_b (pos 0) in
    ap (plus_ℤ (pos 0)) (
      ap (λ s. plus_ℤ s (plus_ℤ (times_ℤ (negsuc 0) b) (pos 0))) (one_times a)
      ∙ ap (λ s. plus_ℤ a (plus_ℤ s (pos 0))) (times_minus_one b))
    ∙ eq_of_parts _ _ (
        omega (
          arith,
          plus_parts (pos 0) (plus_ℤ a tail),
          plus_parts a tail,
          plus_parts minus_b (pos 0),
          minus_parts (pos 0) b,
          minus_parts a b,
        ))
