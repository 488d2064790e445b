-- ===== src/Context/Unsolved.antt =====
-- The loop of `CheckSatCore` after an instance that the theory solver did not solve.
use dlinear.Box.{Box}
