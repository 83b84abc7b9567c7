-- ===== src/Router/Dex/Dlmm.antt =====
-- programs/arbitrage/src/instructions/dex_dlmm.rs: the Meteora DLMM section, as the generic
-- orchestrator reads it: 13 fixed accounts and the bin arrays behind them.
use solana_atomic_arbitrage.Base.{ℕ, ◌+◌, ◌≤◌, List, [], ◌∷◌, length, ltb, ◌||◌, arith}
use solana_atomic_arbitrage.Router.Constants
use solana_atomic_arbitrage.Router.Error.{
  arb_err, arb_bad_program, arb_bad_pda, arb_bad_account_count,
}
use solana_atomic_arbitrage.Router.Types.{
  AccountInfo, Runtime, Result, ◌>>=◌, ◌>>◌, fail_if, account, as_ref,
}
use solana_atomic_arbitrage.Router.Results.{Safe, >>=-Safe, >>-Safe, fail_if-Safe, account-Safe}
use solana_atomic_arbitrage.Router.Dex.Checks.{
  require_key, require_owner, require_key-Safe, require_owner-Safe,
}

abbrev pub dlmm_fixed_len : ℕ
dlmm_fixed_len = 13

abbrev pub dlmm_token_x_mint_off : ℕ
dlmm_token_x_mint_off = 9

abbrev pub dlmm_token_y_mint_off : ℕ
dlmm_token_y_mint_off = 10

abbrev pub dlmm_token_x_prog_off : ℕ
dlmm_token_x_prog_off = 11

abbrev pub dlmm_token_y_prog_off : ℕ
dlmm_token_y_prog_off = 12

module _ (rt : Runtime) (accounts : List AccountInfo) (base remaining : ℕ) where
  -- The oracle is the PDA of the pair at index 1.
  unfoldable pub require_oracle : Result (Unit {0})
  require_oracle = do
    lb_pair ← account accounts (base + Constants.dlmm_lb_pair_rel)
    require_key accounts (base + Constants.dlmm_oracle_rel)
        (rt.find_program_address (Constants.dlmm_oracle_seed ∷ as_ref lb_pair.key ∷ [])
          Constants.dlmm_id)
        arb_bad_pda

  unfoldable pub validate_section : Result (Unit {0})
  validate_section = do
    fail_if (ltb remaining 1 || ltb 6 remaining) (arb_err arb_bad_account_count)
    require_key accounts (base + Constants.dlmm_program_rel) Constants.dlmm_id arb_bad_program
    require_owner accounts (base + Constants.dlmm_lb_pair_rel) Constants.dlmm_id arb_bad_program
    require_oracle
    require_key accounts (base + Constants.dlmm_memo_rel) Constants.memo_id arb_bad_program
    require_key accounts (base + Constants.dlmm_event_auth_rel) Constants.dlmm_event_auth
        arb_bad_program

  pub require_oracle-Safe : base + Constants.dlmm_fixed_len ≤ length accounts → Safe require_oracle
  unfolding require_oracle
  require_oracle-Safe h =
      >>=-Safe (account-Safe accounts _ (omega arith))
        (λ lb_pair _. require_key-Safe accounts _ _ _ (omega arith))

  pub validate_section-Safe :
      base + dlmm_fixed_len + remaining ≤ length accounts → Safe validate_section
  unfolding validate_section
  validate_section-Safe h = >>-Safe (fail_if-Safe _ _) (
      >>-Safe (require_key-Safe accounts _ _ _ (omega arith)) (
        >>-Safe (require_owner-Safe accounts _ _ _ (omega arith)) (
          >>-Safe (require_oracle-Safe (omega arith)) (
            >>-Safe (require_key-Safe accounts _ _ _ (omega arith))
              (require_key-Safe accounts _ _ _ (omega arith))))))
