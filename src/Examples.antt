-- ===== src/Examples.antt =====
-- Concrete inputs, and the theorems applied to them.
mod Numbers
mod Theory
mod Declaring
mod Options
mod Integers
mod Exact
mod Asserting
mod Refuting
mod Satisfying
mod Tseitin
mod Elimination
mod Formulas
mod Scopes
mod Boxes
mod MainClauses
mod Solving
mod Looping
