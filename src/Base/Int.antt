-- ===== src/Base/Int.antt =====
-- Go's `int`, `int32` and `int64`: whole numbers, with the tests and conversions that the program
-- makes. `int32(n)` wraps.
use Prim.Native.Nat.{ℕ, zero, suc, compare, Ordering, ◌-◌, ◌%◌, ◌^◌}
use mathlib.Core.Bool.{Bool, true, false}

-- `negsuc n` is -(n + 1).
pub data ℤ : Type 0 where
  pos : ℕ → ℤ
  negsuc : ℕ → ℤ

abbrev pub ltb : ℕ → ℕ → Bool
ltb a b = elim (compare a b) [ Ordering.lt ↦ true | _ ↦ false ]

-- n > 0
abbrev pub is_pos : ℤ → Bool
is_pos (pos zero) = false
is_pos (pos (suc _)) = true
is_pos (negsuc _) = false

-- n == 0
abbrev pub is_zero : ℤ → Bool
is_zero (pos zero) = true
is_zero (pos (suc _)) = false
is_zero (negsuc _) = false

of_word : ℕ → ℤ
of_word w = elim (compare w (2 ^ 31)) [ Ordering.lt ↦ pos w | _ ↦ negsuc (2 ^ 32 - w - 1) ]

-- int32(n)
unfoldable pub int32 : ℤ → ℤ
unfolding of_word
int32 (pos n) = of_word (n % 2 ^ 32)
int32 (negsuc n) = of_word (2 ^ 32 - 1 - n % 2 ^ 32)
