-- ===== src/Examples/Elimination.antt =====
-- Two numbers, the sum exclusive, and a formula with conditionals inside and outside a quantifier.
use dlinear.Base.{◌≤◌, ◌<◌, All, Bool, true, false, not, ◌&&◌, ◌≡◌, refl, [], ◌∷◌, arith}
use dlinear.Symbolic.Syntax.{
  Variable, continuous, boolean, constant, variable, addition, multiplication, unary, binary, power,
  if_then_else, no_term, term, no_factor, factor, Formula, prop, eq, conj, forall, nil, cons,
}
use dlinear.Symbolic.Meaning.{Env, holds, Structure, IsOrdered, value_of}
use dlinear.Symbolic.Fits.{Agree, Fits}
use dlinear.Symbolic.Library.{Library, insert}
use dlinear.Symbolic.Plain.{plain, plain-IsSound, plain-IsClosed}
use dlinear.Nnfizer
use dlinear.IteEliminator.{
  Operators, process, process_fuel, process_with, visit_formula, visit, conjoin, insert_variables,
  insert_variable, nesting,
}
use dlinear.IteEliminator.Meanings.{IsOperators, Regroups}
use dlinear.IteEliminator.Steps.{Only}
use dlinear.IteEliminator.Process.{process_sound, process_complete, process-new}

abbrev xor : Bool → Bool → Bool
xor true b = not b
xor false b = b

abbrev every : (Bool → Bool) → Bool
every p = p true && p false

every-holds : (p : Bool → Bool) → every p ≡ true → (x : Bool) → p x ≡ true
every-holds p h true = ground (arith)
every-holds p h false = ground (arith)

holds-every : (p : Bool → Bool) → ((x : Bool) → p x ≡ true) → every p ≡ true
holds-every p h = ground (arith, h true, h false)

trichotomy : (a b : Bool) → not (xor a b) ≡ (not (not a && b) && not (not b && a))
trichotomy a b = ground (arith)

unfoldable parity : Structure Bool
parity = record {
  equal = λ a b. not (xor a b);
  less = λ a b. not a && b;
  zero = false;
  one = true;
  plus = xor;
  minus = xor;
  times = λ a b. a && b;
  half = true;
  pow = λ a b. a;
  apply_unary = λ op a. a;
  apply_binary = λ op a b. a;
  apply_uninterpreted = λ name xs. false;
  every = every;
  trichotomy = trichotomy;
  every_iff = λ p. (every-holds p, holds-every p);
}

parity-IsOrdered : IsOrdered parity
unfolding parity
parity-IsOrdered = record {
  eq_of_equal = λ a b h. ground (arith);
  less_asym = λ a b h. ground (arith);
  le_trans = λ a b c h k. ground (arith);
}

parity-Regroups : Regroups parity
unfolding parity
parity-Regroups = record {
  plus_assoc = λ a b c. ground (arith);
  plus_zero = λ a. ground (arith);
  times_assoc = λ a b c. ground (arith);
  times_one = λ a. ground (arith);
  power_pow = λ a b. refl;
}

-- Operators that do not simplify; every expression is looked into.
abbrev operators : Operators Bool
operators = record {
  plus = λ d e. addition false (term d true (term e true no_term));
  times =
      λ d e. multiplication true (factor d (constant true) (factor e (constant true) no_factor));
  pow = binary power;
  make_unary = unary;
  make_binary = binary;
  include_ite = λ e. true;
}

operators-IsOperators : IsOperators parity operators
unfolding parity value_of Fits
operators-IsOperators = record {
  value_of-plus = λ env d e. ground (arith);
  value_of-times = λ env d e. ground (arith);
  value_of-pow = λ env d e. refl;
  value_of-make_unary = λ env op e. refl;
  value_of-make_binary = λ env op d e. refl;
  plus-Fits = λ n d e h k. (h, (k, tt));
  times-Fits = λ n d e h k. (h, tt, (k, tt, tt));
  pow-Fits = λ n d e h k. (h, k);
  make_unary-Fits = λ n op e h. h;
  make_binary-Fits = λ n op d e h k. (h, k);
}

nesting-negate : (f : Formula Bool) → nesting (Library.negate plain f) ≤ nesting f
unfolding nesting plain
nesting-negate f = omega arith

abbrev b : Variable
b = record { id = 0; type = boolean }

abbrev x : Variable
x = record { id = 1; type = continuous }

abbrev y : Variable
y = record { id = 2; type = continuous }

-- `(if b then x else 1) = x ∧ ∀y. (if y = x then y else x) = x`.
abbrev formula : Formula Bool
formula = conj (
    cons (eq (if_then_else (prop b) (variable x) (constant true)) (variable x)) (
      cons
        (forall (y ∷ [])
          (eq (if_then_else (eq (variable y) (variable x)) (variable y) (variable x)) (variable x)))
        nil))

formula-Fits : Fits 3 formula
unfolding Fits
formula-Fits = ground (arith)

abbrev env : Env Bool
env = record { truth = λ i. true; value = λ i. true }

holds-formula : holds parity env formula ≡ true
unfolding holds value_of parity
holds-formula = refl

holds-processed : holds parity env (process plain operators formula 3).0 ≡ true
unfolding holds value_of parity process process_fuel process_with visit_formula visit nesting
    conjoin insert_variables insert_variable insert Nnfizer.convert Nnfizer.visit plain
holds-processed = refl

process_sound_example : holds parity env formula ≡ true
process_sound_example =
    process_sound operators parity-IsOrdered (plain-IsSound parity) plain-IsClosed
      operators-IsOperators parity-Regroups nesting-negate formula 3 env formula-Fits
      holds-processed

process_complete_example :
    (e : Env Bool) × Only (process plain operators formula 3).1 env e
    × Agree 3 env e
    × (holds parity e (process plain operators formula 3).0 ≡ true)
process_complete_example =
    process_complete operators parity-IsOrdered (plain-IsSound parity) plain-IsClosed
      operators-IsOperators parity-Regroups nesting-negate formula 3 env formula-Fits holds-formula

process-new_example :
    Fits (process plain operators formula 3).2 (process plain operators formula 3).0
    × All
        (λ v. (3 ≤ v.id) × (v.id < (process plain operators formula 3).2))
        (process plain operators formula 3).1
process-new_example =
    process-new operators parity-IsOrdered (plain-IsSound parity) plain-IsClosed
      operators-IsOperators parity-Regroups nesting-negate formula 3 formula-Fits
