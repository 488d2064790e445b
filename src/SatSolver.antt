-- ===== src/SatSolver.antt =====
-- dreal/solver/soplex_sat_solver.cc: the solver that joins picosat and SoPlex.
pub mod Linear
pub mod Clauses
pub mod Solver
