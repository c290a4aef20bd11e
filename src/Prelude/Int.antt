-- ===== src/Prelude/Int.antt =====
-- Integers, for the arguments of which only the sign and the size matter.
use Prim.Native.Nat.{ℕ}
use mathlib.Core.Bool.{Bool, true, not}
use super_mew.Prelude.Logic.{◌==◌}

-- `negsuc n` is -(n + 1)
pub data ℤ : Type 0 where
  pos : ℕ → ℤ
  negsuc : ℕ → ℤ

-- `max(0, n)`
abbrev pub max_zero : ℤ → ℕ
max_zero (pos n) = n
max_zero (negsuc n) = 0

-- an integer is true in a test if it is not 0
abbrev pub nonzero : ℤ → Bool
nonzero (pos n) = not (n == 0)
nonzero (negsuc n) = true
