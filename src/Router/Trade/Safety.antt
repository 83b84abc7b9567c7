-- ===== src/Router/Trade/Safety.antt =====
-- The shared flow of the handlers (orchestrate.rs steps 6 to 10): its reads of the accounts.
use solana_atomic_arbitrage.Base.{ℕ, ◌≤◌, ◌≡◌, List, length, arith}
use solana_atomic_arbitrage.Router.Accounting.{read_token_amount-Safe, aggregate_sol_balance-Safe}
use solana_atomic_arbitrage.Router.Types.{AccountInfo, Result, ok}
use solana_atomic_arbitrage.Router.Results.{
  Safe, safe_ok, >>=-Safe, >>-Safe, fail_if-Safe, ok_or-Safe, account-Safe,
}
use solana_atomic_arbitrage.Router.Trade.{sol_balance, meme_balance, meme_received, settle, trade}

module _ (accounts : List AccountInfo) (three : 3 ≤ length accounts) where
  pub sol_balance-Safe : Safe (sol_balance accounts)
  unfolding sol_balance
  sol_balance-Safe = >>=-Safe (account-Safe accounts 0 (omega arith)) λ user _.
      >>=-Safe (account-Safe accounts 1 (omega arith))
        λ sol_ata _. aggregate_sol_balance-Safe user sol_ata

  pub meme_balance-Safe : Safe (meme_balance accounts)
  unfolding meme_balance
  meme_balance-Safe =
      >>=-Safe (account-Safe accounts 2 (omega arith))
        (λ meme_ata _. read_token_amount-Safe meme_ata)

  pub meme_received-Safe : (before : ℕ) → Safe (meme_received before accounts)
  unfolding meme_received
  meme_received-Safe before =
      >>=-Safe meme_balance-Safe
        λ after _. >>=-Safe (ok_or-Safe _ _) λ received _. >>-Safe (fail_if-Safe _ _) (safe_ok _)

  pub settle-Safe : (pre before min_profit : ℕ) → Safe (settle pre before min_profit accounts)
  unfolding settle
  settle-Safe pre before min_profit = >>=-Safe sol_balance-Safe λ post _.
      >>=-Safe (ok_or-Safe _ _) λ net _.
        >>-Safe (fail_if-Safe _ _)
          (>>=-Safe meme_balance-Safe λ after _. >>-Safe (fail_if-Safe _ _) (safe_ok _))

-- `size` is the number of accounts.
pub trade-Safe :
    (buy_leg : List AccountInfo → Result (List AccountInfo))
    (sell_leg : ℕ → List AccountInfo → Result (List AccountInfo)) (min_profit : ℕ)
    (accounts : List AccountInfo)
    → 3 ≤ length accounts
    → Safe (buy_leg accounts)
    → ((bought : List AccountInfo) → buy_leg accounts ≡ ok bought → length bought ≡ length accounts)
    → ((received : ℕ) (bought : List AccountInfo)
        → length bought ≡ length accounts
        → Safe (sell_leg received bought))
    → ((received : ℕ) (bought sold : List AccountInfo)
        → sell_leg received bought ≡ ok sold
        → length sold ≡ length bought)
    → Safe (trade buy_leg sell_leg min_profit accounts)
unfolding trade
trade-Safe buy_leg sell_leg min_profit accounts three buys bought_len sells sold_len =
    >>=-Safe (sol_balance-Safe accounts three) λ pre _.
      >>=-Safe (meme_balance-Safe accounts three) λ meme _. >>=-Safe buys λ bought is_bought.
        let same = bought_len bought is_bought in
        >>=-Safe (meme_received-Safe bought (omega arith) meme) λ received _.
          >>=-Safe (sells received bought same) λ sold is_sold.
            settle-Safe sold (omega (arith, sold_len received bought sold is_sold)) pre meme
              min_profit
