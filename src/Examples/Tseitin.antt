-- ===== src/Examples/Tseitin.antt =====
-- A formula with a quantifier, and its definitions.
use dlinear.Base.{true, false, not, ◌||◌, ◌≡◌, refl, none, some, List, [], ◌∷◌, ◌==◌, arith}
use dlinear.Symbolic.Syntax.{
  Variable, continuous, boolean, constant, variable, Formula, prop, gt, leq, conj, disj, neg,
  forall, nil, cons,
}
use dlinear.Symbolic.Meaning.{Env, holds, value_of}
use dlinear.Symbolic.Satisfy.{satisfies}
use dlinear.Symbolic.Fits.{Fits, Agree}
use dlinear.Symbolic.Library.{insert, imply}
use dlinear.Symbolic.Depth.{depth}
use dlinear.Symbolic.Kinds.{get_clauses, have_intersection, is_atomic}
use dlinear.Symbolic.Plain.{plain, plain-IsSound, plain-IsClosed}
use dlinear.Examples.Numbers.{Small, nought, plus_one, small}
use dlinear.Nnfizer
use dlinear.NaiveCnfizer
use dlinear.NaiveCnfizer.Laws as NaiveLaws
use dlinear.NaiveCnfizer.Closed as NaiveClosed
use dlinear.TseitinCnfizer
use dlinear.TseitinCnfizer.Sound.{convert_tseitin_sound}
use dlinear.TseitinCnfizer.Complete.{convert_tseitin_complete}

abbrev b : Variable
b = record { id = 0; type = boolean }

abbrev x : Variable
x = record { id = 1; type = continuous }

abbrev y : Variable
y = record { id = 2; type = continuous }

-- `¬(b ∧ x > 0) ∧ ∀y. (y ≤ x ∨ ¬(y ≤ 1))`.
abbrev formula : Formula Small
formula = conj (
    cons (neg (conj (cons (prop b) (cons (gt (variable x) (constant nought)) nil)))) (
      cons
        (forall (y ∷ []) (
          disj (
            cons (leq (variable y) (variable x))
              (cons (neg (leq (variable y) (constant plus_one))) nil))))
        nil))

abbrev naive : Formula Small → Formula Small
naive = NaiveCnfizer.convert plain

abbrev clauses : List (Formula Small)
clauses = elim (TseitinCnfizer.convert plain naive formula 3) [ none ↦ [] | some cs ↦ cs ]

converted : TseitinCnfizer.convert plain naive formula 3 ≡ some clauses
unfolding TseitinCnfizer.convert TseitinCnfizer.visit TseitinCnfizer.emplace
    TseitinCnfizer.clauses_of TseitinCnfizer.collect TseitinCnfizer.cnfize TseitinCnfizer.push_head
    TseitinCnfizer.quantify_all is_atomic NaiveCnfizer.convert NaiveCnfizer.convert_fuel
    NaiveCnfizer.visit NaiveCnfizer.accumulate NaiveCnfizer.disjoin NaiveCnfizer.pairs
    NaiveCnfizer.with_each NaiveCnfizer.each_with depth get_clauses have_intersection
    Nnfizer.convert insert plain
converted = refl

-- The definitions are numbered from 3: the negation, the conjunction below it, the whole.
abbrev model : Env Small
model = record { truth = λ i. not ((i == 0) || (i == 4)); value = λ i. plus_one }

model-satisfies : satisfies small model clauses ≡ true
unfolding TseitinCnfizer.convert TseitinCnfizer.visit TseitinCnfizer.emplace
    TseitinCnfizer.clauses_of TseitinCnfizer.collect TseitinCnfizer.cnfize TseitinCnfizer.push_head
    TseitinCnfizer.push_all TseitinCnfizer.add_iff TseitinCnfizer.cnfize_conjunction
    TseitinCnfizer.add_conjuncts TseitinCnfizer.add TseitinCnfizer.negate_all
    TseitinCnfizer.quantify_all is_atomic imply NaiveCnfizer.convert NaiveCnfizer.convert_fuel
    NaiveCnfizer.visit NaiveCnfizer.accumulate NaiveCnfizer.disjoin NaiveCnfizer.pairs
    NaiveCnfizer.with_each NaiveCnfizer.each_with depth get_clauses have_intersection
    Nnfizer.convert insert holds value_of small plain
model-satisfies = refl

formula-Fits : Fits 3 formula
unfolding Fits
formula-Fits = ground (arith)

convert_tseitin_sound_example : holds small model formula ≡ true
convert_tseitin_sound_example =
    convert_tseitin_sound (plain-IsSound small) naive
      (NaiveLaws.holds-convert_distributed (plain-IsSound small))
      (NaiveClosed.convert-Fits plain-IsClosed) 3 model formula clauses formula-Fits converted
      model-satisfies

abbrev env : Env Small
env = record { truth = λ i. false; value = λ i. plus_one }

holds-formula : holds small env formula ≡ true
unfolding holds value_of small
holds-formula = refl

convert_tseitin_complete_example :
    (e : Env Small) × Agree 3 env e × (satisfies small e clauses ≡ true)
convert_tseitin_complete_example =
    convert_tseitin_complete (plain-IsSound small) plain-IsClosed naive
      (NaiveLaws.holds-convert_distributed (plain-IsSound small))
      (NaiveClosed.convert-Fits plain-IsClosed) formula 3 env clauses formula-Fits converted
      holds-formula
