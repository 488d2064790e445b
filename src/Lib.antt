-- ===== src/Lib.antt =====
-- dlinear: a solver for linear real arithmetic with Boolean structure. A formula is asserted in a
-- context, brought into clauses, abstracted to Boolean variables and given to a SAT solver; each
-- Boolean model is a linear problem that a theory solver decides, and a refuted model comes back
-- as a learned clause.
--
-- Base: shared names, tests on numbers, lists and signed integers.
-- Symbolic (dreal/symbolic/symbolic.cc): variables, expressions and formulas with their kinds;
--   Meaning gives them truth values over any numbers `Structure`; Library is the interface of the
--   symbolic library's constructors, with their documented meaning; Plain is an instance.
-- Nnfizer, NaiveCnfizer, PlaistedGreenbaum (dreal/util/nnfizer.cc, naive_cnfizer.cc,
--   plaisted_greenbaum_cnfizer.cc): `visit` is the visitor methods, `convert` is `Convert`.
-- TseitinCnfizer (dreal/util/tseitin_cnfizer.cc): the conversion with both directions of every
--   definition; `map` is `map_`.
-- IteEliminator (dreal/util/if_then_else_eliminator.cc): `process` is `Process`.
-- PredicateAbstractor (dreal/util/predicate_abstractor.cc): the two maps, and `Convert`.
-- Scoped (dreal/util/scoped_vector.h, scoped_unordered_map.h, scoped_unordered_set.h): Vector,
--   Table and Collection, with `push`, `pop` and insertion.
-- Box (dreal/util/box.cc, box.h): intervals and boxes; `max_diam` is `MaxDiam`.
-- SatSolver (dreal/solver/soplex_sat_solver.cc): Linear is the linear problem with its columns, rows
--   and bounds, Clauses the copy of the main clauses and `GetMainActiveLiterals`, Solver the
--   operations of the class over both, with the containers, the conversion and the abstractor.
--   Linear.Problem is what SoPlex documents of the rows, and Linear.Represents what the rows mean.
-- Literal (dreal/util/literal.cc) and TheorySolver (dreal/solver/soplex_theory_solver.cc):
--   `check_sat` is `CheckSat`, its answer `SAT_DELTA_SATISFIABLE` or `SAT_UNSATISFIABLE`.
-- Context (dreal/solver/soplex_context_impl.cc): `Assert` and the loop of `CheckSatCore`, over an
--   interface of the two solvers; its Session (dreal/solver/context_impl.cc) is the variables that
--   are declared, their intervals and the model, and its Options are `SetOption` and `SetInfo`. Reach
--   is the states that the calls lead to; Refutes and Satisfies are one round of the two solvers.
--   Solvers fills the interface with the two modelled solvers; Run and Found are the rounds of the
--   loop.
-- OptionValue (dreal/util/option_value.h): the value of an option with its origin.
-- Examples: concrete inputs.
--
-- State is passed explicitly; a call that throws returns `none`, or `failed` in the loop. A set is
-- the list that its iteration order gives, a map an association list.
--
-- Fuel: the naive conversion starts again inside each quantifier and runs on the depth of
-- quantifiers plus one, and so does the elimination of conditionals. The loop of `CheckSatCore` has
-- no bound in the source; its fuel is the number of rounds, and a run that uses it up says so, which
-- is none of the answers.
--
-- Parameters: the numbers and their quantifier (`Structure`, `IsOrdered`), the constructors of the
-- symbolic library (`Library`), its operators on expressions (`Operators`), picosat (`Picosat`),
-- SoPlex (`Soplex`, `Optimizer`) and `Expand` of a difference. What the code relies on
-- of them is named: `IsAffine` of the numbers, `IsSoplex`, `IsProblem` and `IsOptimizer` of SoPlex,
-- `IsShared` of the two interfaces to one problem, `IsDifference` of `Expand`. The loop takes the
-- two solvers and the elimination as an interface (`Engine`).
--
-- Not modelled: the QSopt_ex variants, the assertion filter (dreal/solver/filter_assertion.cc,
-- which the build leaves out), contractors, the front ends, that the loop ends, the options that no
-- `SetOption` writes, logging and statistics. A box is read and written only at a variable that it
-- has; copy on write is not visible. `Push` and `Pop` of the SAT solver only throw.
pub mod Base
pub mod Scoped
pub mod Box
pub mod Symbolic
pub mod Nnfizer
pub mod NaiveCnfizer
pub mod OptionValue
pub mod PlaistedGreenbaum
pub mod PredicateAbstractor
pub mod SatSolver
pub mod TseitinCnfizer
pub mod IteEliminator
pub mod Literal
pub mod TheorySolver
pub mod Context
pub mod Examples
