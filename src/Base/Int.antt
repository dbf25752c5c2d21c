-- ===== src/Base/Int.antt =====
-- C's `int` where the program compares it with zero: an integer with its sign.
use Prim.Native.Nat.{ℕ}
use mathlib.Core.Bool.{Bool, true, false}
use android_kernel_programmi.Base.Tests.{ltb, ◌==◌}

-- `negsuc n` is -(n + 1).
pub data ℤ : Type 0 where
  pos : ℕ → ℤ
  negsuc : ℕ → ℤ

abbrev pub is_neg : ℤ → Bool
is_neg (pos n) = false
is_neg (negsuc n) = true

-- `z > n` for a constant `n` that is not negative.
abbrev pub gt_nat : ℤ → ℕ → Bool
gt_nat (pos m) n = ltb n m
gt_nat (negsuc m) n = false

abbrev pub is_zero : ℤ → Bool
is_zero (pos n) = n == 0
is_zero (negsuc n) = false

-- The value, where the sign was tested.
abbrev pub to_nat : ℤ → ℕ
to_nat (pos n) = n
to_nat (negsuc n) = 0
