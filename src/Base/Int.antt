-- ===== src/Base/Int.antt =====
-- Signed integers over the native numbers, for `i64` and `i32`.
use solana_atomic_arbitrage.Base.Tests.{leb, ltb, if◌then◌else◌}
use Prim.Native.Nat.{ℕ, suc, ◌+◌, ◌-◌, ◌*◌, ◌%◌, ◌^◌, min}
use mathlib.Core.Bool.{Bool}

-- `negsuc n` is -(n + 1).
pub data ℤ : Type 0 where
  pos : ℕ → ℤ
  negsuc : ℕ → ℤ

abbrev pub pos_part : ℤ → ℕ
pos_part (pos n) = n
pos_part (negsuc n) = 0

abbrev pub neg_part : ℤ → ℕ
neg_part (pos n) = 0
neg_part (negsuc n) = suc n

abbrev pub sub_ℕ : ℕ → ℕ → ℤ
sub_ℕ a b = if leb b a then pos (a - b) else negsuc (b - a - 1)

abbrev pub leb_ℤ : ℤ → ℤ → Bool
leb_ℤ a b = leb (pos_part a + neg_part b) (pos_part b + neg_part a)

abbrev pub add_ℤ : ℤ → ℤ → ℤ
add_ℤ a b = sub_ℕ (pos_part a + pos_part b) (neg_part a + neg_part b)

-- The product of a number with one that is not negative.
abbrev pub mul_ℕ : ℤ → ℕ → ℤ
mul_ℕ (pos n) k = pos (n * k)
mul_ℕ (negsuc n) k = sub_ℕ 0 (suc n * k)

-- `i64::from_le_bytes`, after the bytes are read as a number.
abbrev pub signed64 : ℕ → ℤ
signed64 n = if ltb n (2 ^ 63) then pos n else negsuc (2 ^ 64 - 1 - n)

-- The bounds of `i64`, which the saturating operations keep to.
abbrev pub saturate64 : ℤ → ℤ
saturate64 (pos n) = pos (min n (2 ^ 63 - 1))
saturate64 (negsuc n) = negsuc (min n (2 ^ 63 - 1))

abbrev signed32 : ℕ → ℤ
signed32 n = if ltb n (2 ^ 31) then pos n else negsuc (2 ^ 32 - 1 - n)

-- `as i32`
abbrev pub as_i32 : ℤ → ℤ
as_i32 (pos n) = signed32 (n % 2 ^ 32)
as_i32 (negsuc n) = signed32 (2 ^ 32 - 1 - n % 2 ^ 32)
