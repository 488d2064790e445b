-- ===== src/Symbolic.antt =====
-- dreal/symbolic/symbolic.cc, and the part of the vendored symbolic library that it stands on:
-- the syntax as data, its meaning, and the constructors as an interface.
pub mod Syntax
pub mod Meaning
pub mod Kinds
pub mod Fits
pub mod Ids
pub mod Satisfy
pub mod Weaken
pub mod Quantifier
pub mod Library
pub mod Depth
pub mod Bound
pub mod Plain
