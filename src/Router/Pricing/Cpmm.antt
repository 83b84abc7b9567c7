-- ===== src/Router/Pricing/Cpmm.antt =====
-- programs/arbitrage/src/pricing/mod.rs: the constant-product output with an additive fee, and the
-- same on numbers without bound.
pub mod Bounds
use solana_atomic_arbitrage.Base.{
  ℕ, ◌+◌, ◌-◌, ◌*◌, ◌/◌, ◌%◌, ◌^◌, ◌≤◌, ◌<◌, ◌≡◌, ◌≢◌, refl, sym, ◌∙◌, ap, Bool, true, false, ◌||◌,
  Option, none, some, ltb, leb, ◌==◌, if◌then◌else◌, Bool-cases, ==→eq, ==→ne, ◌⊎◌, inl, inr, arith,
}
use solana_atomic_arbitrage.Base.Checked.{
  u64_mod, u128_mod, checked_add, checked_sub, checked_mul, checked_div, checked_add-fits,
  checked_mul-fits, checked_div-pos, checked_sub-le, mul-lt_u128,
}
use solana_atomic_arbitrage.Base.Options.{◌>>=◌, ◌>>◌, none_if}
use native.Mathlib.Nat.{
  mod-eq_of_lt, zero-div, mul-div-le, div-le_of_le-mul, div-lt_iff_lt-mul, lt-mul-div-succ,
}

unfoldable pub cpmm_swap_output : ℕ → ℕ → ℕ → ℕ → Option (ℕ × ℕ)
cpmm_swap_output ri ro a fee = do
  none_if (a == 0 || ri == 0 || ro == 0)
  denom ← checked_add u128_mod 10000 fee
  num ← checked_mul u128_mod a 10000
  effective ← checked_div num denom
  none_if (effective == 0)
  fee_amount ← checked_sub a effective
  numerator ← checked_mul u128_mod ro effective
  denominator ← checked_add u128_mod ri effective
  output ← checked_div numerator denominator
  none_if (output == 0)
  some (output % u64_mod, fee_amount % u64_mod)

-- What is left of an input after the fee.
abbrev pub effective_input : ℕ → ℕ → ℕ
effective_input a fee = a * 10000 / (10000 + fee)

-- The output for an input that is free of fee.
abbrev pub product_output : ℕ → ℕ → ℕ → ℕ
product_output ri ro effective = ro * effective / (ri + effective)

-- The quote as an equation on numbers without bound.
abbrev pub quote : ℕ → ℕ → ℕ → ℕ → Option (ℕ × ℕ)
quote ri ro a fee =
    let effective = effective_input a fee in
    let output = product_output ri ro effective in
    if ri == 0 || output == 0 then none else some (output, a - effective)
