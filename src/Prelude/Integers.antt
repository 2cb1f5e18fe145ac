-- ===== src/Prelude/Integers.antt =====
-- The `int` of C++, its decimal print and its tests.
use Prim.Native.Nat.{ℕ, suc, ◌^◌}
use mathlib.Core.Bool.{Bool, false}
use mathlib.Core.List.{◌∷◌}
use open_bc.Prelude.Tests.{ltb, ◌==◌}
use open_bc.Prelude.Texts.{Text, decimal}

-- `negsuc n` is `-1 - n`.
pub data ℤ : Type 0 where
  pos negsuc : ℕ → ℤ

unfoldable pub print_int : ℤ → Text
print_int (pos n) = decimal n
print_int (negsuc n) = b'-' ∷ decimal (suc n)

-- `n == v`, `v > 0`, and whether `v` has 32 bits.
unfoldable pub is_int : ℕ → ℤ → Bool
is_int n (pos m) = n == m
is_int n (negsuc m) = false

unfoldable pub above_zero : ℤ → Bool
above_zero (pos n) = ltb 0 n
above_zero (negsuc n) = false

unfoldable pub is_int32 : ℤ → Bool
is_int32 (pos n) = ltb n (2 ^ 31)
is_int32 (negsuc n) = ltb n (2 ^ 31)
