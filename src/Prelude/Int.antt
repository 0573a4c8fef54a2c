-- ===== src/Prelude/Int.antt =====
-- Signed integers over the native numbers, for the fields of C++ type `int`.
use Prim.Native.Nat.{ℕ, ◌<◌, ◌^◌}
use mathlib.Core.Bool.{Bool, false}
use serf_cpp.Prelude.Tests.{◌==◌}

-- `negsuc n` is -(n + 1).
pub data ℤ : Type 0 where
  pos : ℕ → ℤ
  negsuc : ℕ → ℤ

-- the range of a 32-bit `int`
abbrev pub IsInt32 : ℤ → Type 0
IsInt32 (pos n) = n < 2 ^ 31
IsInt32 (negsuc n) = n < 2 ^ 31

abbrev pub beq_ℤ : ℤ → ℤ → Bool
beq_ℤ (pos a) (pos b) = a == b
beq_ℤ (negsuc a) (negsuc b) = a == b
beq_ℤ (pos a) (negsuc b) = false
beq_ℤ (negsuc a) (pos b) = false
