-- ===== src/Router/Accounting.antt =====
-- programs/arbitrage/src/accounting.rs: token amounts and the aggregate SOL balance.
use solana_atomic_arbitrage.Base.{ltb→le, ℕ, length, ltb}
use solana_atomic_arbitrage.Base.Checked.{checked_add, u64_mod}
use solana_atomic_arbitrage.Router.Slices.{u64_at, u64_at-Safe}
use solana_atomic_arbitrage.Router.Types.{
  AccountInfo, Result, ◌>>=◌, ◌>>◌, fail_if, ok_or, invalid_account_data, arithmetic_overflow,
}
use solana_atomic_arbitrage.Router.Results.{Safe, >>=-Safe, fail_if-Safe, fail_if-eq-ok, ok_or-Safe}

unfoldable pub read_token_amount : AccountInfo → Result ℕ
read_token_amount account = do
  fail_if (ltb (length account.bytes) 72) invalid_account_data
  u64_at account.bytes 64

unfoldable pub aggregate_sol_balance : AccountInfo → AccountInfo → Result ℕ
aggregate_sol_balance user_wallet user_wsol_ata = do
  let native = user_wallet.lamports
  wsol ← read_token_amount user_wsol_ata
  ok_or (checked_add u64_mod native wsol) arithmetic_overflow

pub read_token_amount-Safe : (a : AccountInfo) → Safe (read_token_amount a)
unfolding read_token_amount
read_token_amount-Safe a =
    >>=-Safe {m = fail_if (ltb (length a.bytes) 72) invalid_account_data} (fail_if-Safe _ _)
      λ u sized. u64_at-Safe a.bytes 64 (ltb→le _ _ (fail_if-eq-ok _ invalid_account_data sized))

pub aggregate_sol_balance-Safe : (a b : AccountInfo) → Safe (aggregate_sol_balance a b)
unfolding aggregate_sol_balance
aggregate_sol_balance-Safe a b = >>=-Safe (read_token_amount-Safe b) (λ wsol _. ok_or-Safe _ _)
