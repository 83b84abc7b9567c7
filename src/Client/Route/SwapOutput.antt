-- ===== src/Client/Route/SwapOutput.antt =====
-- src/executor/atomic/generic_route.rs, `checked_cp_swap_output`: the constant-product output with a
-- fee that is taken off the input.
use solana_atomic_arbitrage.Base.{ℕ, ◌%◌, ◌||◌, Option, some, ◌==◌, if◌then◌else◌}
use solana_atomic_arbitrage.Base.Checked.{
  u64_mod, u128_mod, checked_add, checked_sub, checked_mul, checked_div,
}
use solana_atomic_arbitrage.Base.Options.{◌>>=◌, ◌>>◌, none_if}

abbrev pub swap_fee_denom : ℕ
swap_fee_denom = 1_000_000

abbrev pub cpmm_default_trade_fee_rate : ℕ
cpmm_default_trade_fee_rate = 2500

-- The part behind the test for zeros.
unfoldable pub cp_output : ℕ → ℕ → ℕ → ℕ → Option ℕ
cp_output ri ro a rate = do
  product ← checked_sub swap_fee_denom rate
  numerator ← checked_mul u128_mod a product
  amount_after ← checked_div numerator swap_fee_denom
  none_if (amount_after == 0)
  num ← checked_mul u128_mod ro amount_after
  den ← checked_add u128_mod ri amount_after
  none_if (den == 0)
  out ← checked_div num den
  none_if (out == 0)
  some (out % u64_mod)

unfoldable pub checked_cp_swap_output : ℕ → ℕ → ℕ → ℕ → Option ℕ
checked_cp_swap_output reserve_in reserve_out amount_in fee_rate =
    if (amount_in == 0) || (reserve_out == 0)
    then some 0
    else cp_output reserve_in reserve_out amount_in fee_rate
