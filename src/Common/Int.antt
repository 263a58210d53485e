-- ===== src/Common/Int.antt =====
-- Signed integers over the native numbers, for C's `int`, `short` and `long`, and the conversions
-- from words that the code makes.
use Prim.Native.Nat.{ℕ, suc, ◌-◌, ◌%◌, ◌^◌}
use mathlib.Core.Bool.{Bool, true, false}
use xyzterm.Common.Tests.{ltb, if◌then◌else◌}

-- `negsuc n` is -(n + 1).
pub data ℤ : Type 0 where
  pos : ℕ → ℤ
  negsuc : ℕ → ℤ

abbrev pub pos_part : ℤ → ℕ
pos_part (pos n) = n
pos_part (negsuc n) = 0

abbrev pub neg_part : ℤ → ℕ
neg_part (pos n) = 0
neg_part (negsuc n) = suc n

abbrev pub is_negative : ℤ → Bool
is_negative (pos n) = false
is_negative (negsuc n) = true

-- `(int) word`: the low 32 bits, read as a signed number.
abbrev pub to_int : ℕ → ℤ
to_int w = let low = w % 2 ^ 32 in if ltb low (2 ^ 31) then pos low else negsuc (2 ^ 32 - low - 1)

-- An `int16_t` by its bit pattern, below 2 ^ 16.
abbrev pub signed16 : ℕ → ℤ
signed16 g = if ltb g (2 ^ 15) then pos g else negsuc (2 ^ 16 - g - 1)
