-- ===== src/Client/Estimate.antt =====
-- src/simulator/mod.rs, `checked_estimate_swap_output`, and its two users in
-- src/simulator/pumpswap/math.rs: the client's own constant-product estimate.
pub mod Agreement
use solana_atomic_arbitrage.Base.{ℕ, ◌+◌, ◌*◌, ◌/◌, ◌%◌, Option, none, some, ◌==◌, if◌then◌else◌}
use solana_atomic_arbitrage.Base.Checked.{u64_mod, u128_mod, checked_add, checked_mul, checked_div}
use solana_atomic_arbitrage.Base.Options.{◌>>=◌, ◌>>◌, none_if}

-- The part behind the test for a zero amount.
unfoldable pub checked_output : ℕ → ℕ → ℕ → ℕ → Option ℕ
checked_output ri ro a fee_bps = do
  denom ← checked_add u128_mod 10000 fee_bps
  num ← checked_mul u128_mod a 10000
  effective ← checked_div num denom
  none_if (effective == 0)
  numerator ← checked_mul u128_mod ro effective
  denominator ← checked_add u128_mod ri effective
  none_if (denominator == 0)
  out ← checked_div numerator denominator
  none_if (out == 0)
  some (out % u64_mod)

unfoldable pub checked_estimate_swap_output : ℕ → ℕ → ℕ → ℕ → Option ℕ
checked_estimate_swap_output ri ro a fee_bps =
    if a == 0 then some 0 else checked_output ri ro a fee_bps

unfoldable pub checked_pumpswap_buy_output : ℕ → ℕ → ℕ → ℕ → Option ℕ
checked_pumpswap_buy_output quote_amount_in quote_reserves base_reserves fee_bps =
    checked_estimate_swap_output quote_reserves base_reserves quote_amount_in fee_bps

unfoldable pub checked_pumpswap_sell_output : ℕ → ℕ → ℕ → ℕ → Option ℕ
checked_pumpswap_sell_output base_amount_in base_reserves quote_reserves fee_bps =
    checked_estimate_swap_output base_reserves quote_reserves base_amount_in fee_bps
