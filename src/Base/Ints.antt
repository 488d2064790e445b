-- ===== src/Base/Ints.antt =====
-- Signed integers over the native numbers.
use Prim.Native.Nat.{ℕ, zero, suc}
use mathlib.Core.Path.{◌≡◌}
use mathlib.Core.Bool.{Bool, true, false}
use mathlib.Core.Logic.{◌↔◌}
use native.Mathlib.Omega.{arith}
use dlinear.Base.Tests.{ltb, ◌==◌}

-- `negsuc n` is -(n + 1).
pub data ℤ : Type 0 where
  pos : ℕ → ℤ
  negsuc : ℕ → ℤ

-- The number `n`, or its negation.
abbrev pub signed : Bool → ℕ → ℤ
signed true n = pos n
signed false zero = pos zero
signed false (suc n) = negsuc n

abbrev pub abs_ℤ : ℤ → ℕ
abs_ℤ (pos n) = n
abs_ℤ (negsuc n) = suc n

abbrev pub ==ℤ : ℤ → ℤ → Bool
==ℤ (pos m) (pos n) = m == n
==ℤ (negsuc m) (negsuc n) = m == n
==ℤ (pos m) (negsuc n) = false
==ℤ (negsuc m) (pos n) = false

abbrev pub ltb_ℤ : ℤ → ℤ → Bool
ltb_ℤ (pos m) (pos n) = ltb m n
ltb_ℤ (negsuc m) (negsuc n) = ltb n m
ltb_ℤ (pos m) (negsuc n) = false
ltb_ℤ (negsuc m) (pos n) = true

abbrev pub is_zero_ℤ : ℤ → Bool
is_zero_ℤ (pos zero) = true
is_zero_ℤ _ = false

pub ==ℤ_iff : (a b : ℤ) → (==ℤ a b ≡ true) ↔ (a ≡ b)
==ℤ_iff a b = ground arith
