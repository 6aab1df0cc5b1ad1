-- ===== src/Base/Int.antt =====
-- Go's signed `int`, where its sign matters.
use Prim.Native.Nat.{ℕ}
use mathlib.Core.Bool.{Bool, true, false}
use pulse_go.Base.Tests.{◌==◌}

-- `negsuc n` is -(n + 1).
pub data ℤ : Type 0 where
  pos : ℕ → ℤ
  negsuc : ℕ → ℤ

-- `z == n` for a constant `n` that is not negative.
abbrev pub eq_nat : ℤ → ℕ → Bool
eq_nat (pos m) n = m == n
eq_nat (negsuc m) n = false

-- `z <= 0`
abbrev pub le_zero : ℤ → Bool
le_zero (pos m) = m == 0
le_zero (negsuc m) = true
