-- ===== src/Scoped.antt =====
-- The backtrackable containers of dreal/util: scoped_vector.h, scoped_unordered_map.h and
-- scoped_unordered_set.h. A method that throws returns `none`.
pub mod Vector
pub mod Table
pub mod Collection
