-- ===== src/Router/Trade.antt =====
-- The flow that all three handlers share (orchestrate.rs steps 6 to 10; the legacy routes steps 4
-- to 7): snapshot, buy call, intermediate amount, sell call, post-call invariants. The legs are
-- arguments: each takes the accounts as they are then and returns them as the call has left them.
pub mod Profit
pub mod Safety
pub mod Exact
use solana_atomic_arbitrage.Base.{ℕ, ◌+◌, ◌≤◌, ◌<◌, ◌≡◌, refl, List, length, ltb, ◌==◌, ◌/=◌, arith}
use solana_atomic_arbitrage.Base.Checked.{checked_sub}
use solana_atomic_arbitrage.Router.Constants
use solana_atomic_arbitrage.Router.Accounting.{read_token_amount, aggregate_sol_balance}
use solana_atomic_arbitrage.Router.Error.{
  arb_err, arb_negative_net, arb_insufficient_profit, arb_residual_meme, arb_zero_amount,
}
use solana_atomic_arbitrage.Router.Types.{
  AccountInfo, Result, ok, ◌>>=◌, ◌>>◌, fail_if, ok_or, account,
}

-- `aggregate_sol_balance(&accounts[USER_IDX], &accounts[USER_SOL_ATA_IDX])`
unfoldable pub sol_balance : List AccountInfo → Result ℕ
sol_balance accounts = do
  user ← account accounts Constants.user_idx
  sol_ata ← account accounts Constants.user_sol_ata_idx
  aggregate_sol_balance user sol_ata

-- `read_token_amount(&accounts[USER_MEME_ATA_IDX])`
unfoldable pub meme_balance : List AccountInfo → Result ℕ
meme_balance accounts = do
  meme_ata ← account accounts Constants.user_meme_ata_idx
  read_token_amount meme_ata

-- What the buy leg has brought; nothing, or less than nothing, is an error.
unfoldable pub meme_received : ℕ → List AccountInfo → Result ℕ
meme_received meme_before accounts = do
  meme_after_buy ← meme_balance accounts
  received ← ok_or (checked_sub meme_after_buy meme_before) (arb_err arb_negative_net)
  fail_if (received == 0) (arb_err arb_zero_amount)
  ok received

-- The post-call invariants.
unfoldable pub settle : ℕ → ℕ → ℕ → List AccountInfo → Result (List AccountInfo)
settle pre_aggregate meme_before min_profit accounts = do
  post_aggregate ← sol_balance accounts
  net_sol ← ok_or (checked_sub post_aggregate pre_aggregate) (arb_err arb_negative_net)
  fail_if (ltb net_sol min_profit) (arb_err arb_insufficient_profit)
  meme_after ← meme_balance accounts
  fail_if (meme_after /= meme_before) (arb_err arb_residual_meme)
  ok accounts

unfoldable pub trade :
    (List AccountInfo → Result (List AccountInfo))
    → (ℕ → List AccountInfo → Result (List AccountInfo))
    → ℕ
    → List AccountInfo
    → Result (List AccountInfo)
trade buy_leg sell_leg min_profit accounts = do
  pre_aggregate ← sol_balance accounts
  meme_before ← meme_balance accounts
  bought ← buy_leg accounts
  received ← meme_received meme_before bought
  sold ← sell_leg received bought
  settle pre_aggregate meme_before min_profit sold
