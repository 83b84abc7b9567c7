-- ===== src/Router/Pricing/PumpSwap.antt =====
-- programs/arbitrage/src/pricing/pump_swap.rs: the quote from the two vaults of a PumpSwap pool.
use solana_atomic_arbitrage.Base.{ℕ, Option, none, some}
use solana_atomic_arbitrage.Router.Accounting.{read_token_amount}
use solana_atomic_arbitrage.Router.Error.{arb_err, arb_price_math_overflow}
use solana_atomic_arbitrage.Router.Pricing.Cpmm.{cpmm_swap_output}
use solana_atomic_arbitrage.Router.Types.{AccountInfo, Result, ◌>>=◌, ok_or}

abbrev output_of : Option (ℕ × ℕ) → Option ℕ
output_of none = none
output_of (some (out, _)) = some out

unfoldable pub price_pumpswap_buy : AccountInfo → AccountInfo → ℕ → ℕ → Result ℕ
price_pumpswap_buy pool_base_ata pool_quote_ata amount_in_lamports fee_bps = do
  quote_reserves ← read_token_amount pool_quote_ata
  base_reserves ← read_token_amount pool_base_ata
  ok_or (output_of (cpmm_swap_output quote_reserves base_reserves amount_in_lamports fee_bps))
      (arb_err arb_price_math_overflow)

unfoldable pub price_pumpswap_sell : AccountInfo → AccountInfo → ℕ → ℕ → Result ℕ
price_pumpswap_sell pool_base_ata pool_quote_ata amount_in_tokens fee_bps = do
  base_reserves ← read_token_amount pool_base_ata
  quote_reserves ← read_token_amount pool_quote_ata
  ok_or (output_of (cpmm_swap_output base_reserves quote_reserves amount_in_tokens fee_bps))
      (arb_err arb_price_math_overflow)
