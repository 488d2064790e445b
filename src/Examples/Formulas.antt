-- ===== src/Examples/Formulas.antt =====
-- A formula with a quantifier, and its conversions.
use dlinear.Base.{true, false, ◌≡◌, refl, [], ◌∷◌, suc, zero, ◌==◌, arith}
use dlinear.Symbolic.Syntax.{
  Variable, continuous, boolean, constant, variable, Formula, prop, gt, leq, conj, disj, neg,
  forall, nil, cons,
}
use dlinear.Symbolic.Meaning.{Env, holds, value_of}
use dlinear.Symbolic.Fits.{Fits, Agree}
use dlinear.Symbolic.Library.{insert}
use dlinear.Symbolic.Depth.{depth}
use dlinear.Symbolic.Kinds.{get_clauses, have_intersection}
use dlinear.Symbolic.Plain.{plain, plain-IsSound, plain-IsClosed, plain-KeepsDepth}
use dlinear.Examples.Numbers.{Small, nought, plus_one, small}
use dlinear.Nnfizer
use dlinear.Nnfizer.Laws as NnfLaws
use dlinear.NaiveCnfizer
use dlinear.NaiveCnfizer.Laws as NaiveLaws
use dlinear.NaiveCnfizer.Closed as NaiveClosed
use dlinear.NaiveCnfizer.Fuel as NaiveFuel
use dlinear.PlaistedGreenbaum
use dlinear.PlaistedGreenbaum.Sound.{Satisfies, convert_sound}
use dlinear.PlaistedGreenbaum.Complete.{convert_complete}
use dlinear.PredicateAbstractor
use dlinear.PredicateAbstractor.Laws as AbstractorLaws
use dlinear.PredicateAbstractor.Maps as AbstractorMaps

abbrev b : Variable
b = record { id = 0; type = boolean }

abbrev x : Variable
x = record { id = 1; type = continuous }

abbrev y : Variable
y = record { id = 2; type = continuous }

-- `¬(b ∧ x > 0) ∧ ∀y. (y ≤ x ∨ ¬(y ≤ 1))`, which no choice but b = false makes true at x = 1.
abbrev formula : Formula Small
formula = conj (
    cons (neg (conj (cons (prop b) (cons (gt (variable x) (constant nought)) nil)))) (
      cons
        (forall (y ∷ []) (
          disj (
            cons (leq (variable y) (variable x))
              (cons (neg (leq (variable y) (constant plus_one))) nil))))
        nil))

abbrev env : Env Small
env = record { truth = λ i. false; value = λ i. plus_one }

formula-Fits : Fits 3 formula
unfolding Fits
formula-Fits = ground (arith)

holds-formula : holds small env formula ≡ true
unfolding holds value_of small
holds-formula = refl

holds-convert_example :
    holds small env (Nnfizer.convert plain formula true) ≡ holds small env formula
holds-convert_example = NnfLaws.holds-convert (plain-IsSound small) env formula true

holds-convert_distributed_example :
    holds small env (NaiveCnfizer.convert plain formula) ≡ holds small env formula
holds-convert_distributed_example =
    NaiveLaws.holds-convert_distributed (plain-IsSound small) env formula

convert_step_example :
    NaiveCnfizer.convert plain formula
    ≡ NaiveCnfizer.visit plain (NaiveCnfizer.convert plain) (Nnfizer.convert plain formula true)
convert_step_example = NaiveFuel.convert_step plain-KeepsDepth formula

-- The environment that a model of the clauses gives to the variables of the conversion.
abbrev model : Env Small
model = record { truth = λ i. elim i [ zero ↦ false | suc n ↦ true ]; value = λ i. plus_one }

model-Satisfies :
    Satisfies small model
      (PlaistedGreenbaum.convert plain (NaiveCnfizer.convert plain) formula 3).aux
unfolding PlaistedGreenbaum.convert PlaistedGreenbaum.visit PlaistedGreenbaum.emit_clauses
    PlaistedGreenbaum.guarded PlaistedGreenbaum.insert_all NaiveCnfizer.convert
    NaiveCnfizer.convert_fuel NaiveCnfizer.visit NaiveCnfizer.accumulate NaiveCnfizer.disjoin
    NaiveCnfizer.pairs NaiveCnfizer.with_each NaiveCnfizer.each_with depth get_clauses
    have_intersection Nnfizer.convert insert holds value_of small plain
model-Satisfies = ground (arith)

convert_sound_example : holds small model formula ≡ true
convert_sound_example =
    convert_sound (plain-IsSound small) (NaiveCnfizer.convert plain)
      (NaiveLaws.holds-convert_distributed (plain-IsSound small))
      (NaiveClosed.convert-Fits plain-IsClosed) 3 model plain-IsClosed formula formula-Fits
      model-Satisfies

convert_complete_example :
    (e : Env Small) × Agree 3 env e
    × Satisfies small e (PlaistedGreenbaum.convert plain (NaiveCnfizer.convert plain) formula 3).aux
convert_complete_example =
    convert_complete (plain-IsSound small) plain-IsClosed (NaiveCnfizer.convert plain)
      (NaiveLaws.holds-convert_distributed (plain-IsSound small))
      (NaiveClosed.convert-Fits plain-IsClosed) formula 3 env formula-Fits holds-formula

abbrev start : PredicateAbstractor.State Small
start = record { var_to_formula = []; formula_to_var = []; next = 3 }

abbrev reader : Env Small
reader = record { truth = λ i. i == 4; value = λ i. plus_one }

reader-Reads :
    AbstractorLaws.Reads small reader
      (PredicateAbstractor.convert plain formula start).1.formula_to_var
unfolding PredicateAbstractor.convert PredicateAbstractor.visit_atomic PredicateAbstractor.visit
    PredicateAbstractor.reuse insert holds value_of small plain
reader-Reads = ground (arith)

holds-convert_abstracted_example :
    (holds small reader (PredicateAbstractor.convert plain formula start).0
      ≡ holds small reader formula)
    × AbstractorLaws.Reads small reader start.formula_to_var
holds-convert_abstracted_example =
    AbstractorLaws.holds-convert_abstracted (plain-IsSound small) reader formula start reader-Reads

convert-IsValid_example : AbstractorMaps.IsValid (PredicateAbstractor.convert plain formula start).1
convert-IsValid_example =
    AbstractorMaps.convert-IsValid plain formula start (record { below = tt; mirror = refl })
