-- ===== src/Base/Checked.antt =====
-- Checked arithmetic of Rust's unsigned integers, on natural numbers that stand for them. A width is
-- given by its modulus, `2 ^ 64` or `2 ^ 128`.
use solana_atomic_arbitrage.Base.Tests.{ltb, leb, ◌==◌, if◌then◌else◌}
use Prim.Native.Nat.{ℕ, ◌+◌, ◌-◌, ◌*◌, ◌/◌, ◌^◌, ◌≤◌, ◌<◌}
use mathlib.Core.Path.{◌≡◌}
use mathlib.Core.Option.{Option, none, some}
use native.Mathlib.Omega.{arith}

abbrev pub u64_mod : ℕ
u64_mod = 2 ^ 64

abbrev pub u128_mod : ℕ
u128_mod = 2 ^ 128

unfoldable pub checked_add : ℕ → ℕ → ℕ → Option ℕ
checked_add m a b = if ltb (a + b) m then some (a + b) else none

unfoldable pub checked_sub : ℕ → ℕ → Option ℕ
checked_sub a b = if leb b a then some (a - b) else none

unfoldable pub checked_mul : ℕ → ℕ → ℕ → Option ℕ
checked_mul m a b = if ltb (a * b) m then some (a * b) else none

unfoldable pub checked_div : ℕ → ℕ → Option ℕ
checked_div a b = if b == 0 then none else some (a / b)

pub checked_add-fits : (m a b : ℕ) → a + b < m → checked_add m a b ≡ some (a + b)
unfolding checked_add
checked_add-fits m a b h = ground arith

pub checked_mul-fits : (m a b : ℕ) → a * b < m → checked_mul m a b ≡ some (a * b)
unfolding checked_mul
checked_mul-fits m a b h = ground arith

pub checked_div-pos : (a b : ℕ) → 0 < b → checked_div a b ≡ some (a / b)
unfolding checked_div
checked_div-pos a b h = ground arith

pub checked_sub-le : (a b : ℕ) → b ≤ a → checked_sub a b ≡ some (a - b)
unfolding checked_sub
checked_sub-le a b h = ground arith

-- The product of two 64-bit numbers fits 128 bits.
pub mul-lt_u128 : (a b : ℕ) → a < u64_mod → b < u64_mod → a * b < u128_mod
mul-lt_u128 a b h k = grind arith
