-- ===== src/Router/Dex/Whirlpool.antt =====
-- programs/arbitrage/src/instructions/dex_whirlpool.rs: the Orca Whirlpool section.
use solana_atomic_arbitrage.Base.{ℕ, ◌+◌, ◌≤◌, List, [], ◌∷◌, length, ltb, ◌||◌, arith}
use solana_atomic_arbitrage.Router.Constants
use solana_atomic_arbitrage.Router.Error.{
  arb_err, arb_bad_program, arb_bad_pda, arb_bad_account_count,
}
use solana_atomic_arbitrage.Router.Types.{
  AccountInfo, Runtime, Result, ◌>>=◌, ◌>>◌, fail_if, account, as_ref,
}
use solana_atomic_arbitrage.Router.Results.{Safe, >>=-Safe, >>-Safe, fail_if-Safe, account-Safe}
use solana_atomic_arbitrage.Router.Dex.Cpmm.{token22}
use solana_atomic_arbitrage.Router.Dex.Checks.{
  require_key, require_owner, require_either, require_key-Safe, require_owner-Safe,
  require_either-Safe,
}

abbrev pub whirlpool_fixed_len : ℕ
whirlpool_fixed_len = 12

abbrev pub whirlpool_token_prog_off : ℕ
whirlpool_token_prog_off = 11

-- The seed `b"oracle"`.
abbrev oracle_seed : List ℕ
oracle_seed = Constants.dlmm_oracle_seed

module _ (rt : Runtime) (accounts : List AccountInfo) (base tick_array_count : ℕ) where
  -- The oracle is the PDA of the pool at index 2.
  unfoldable pub require_oracle : Result (Unit {0})
  require_oracle = do
    whirlpool ← account accounts (base + 2)
    require_key accounts (base + 10)
        (rt.find_program_address (oracle_seed ∷ as_ref whirlpool.key ∷ []) Constants.whirlpool_id)
        arb_bad_pda

  unfoldable pub validate_section : Result (Unit {0})
  validate_section = do
    require_key accounts base Constants.whirlpool_id arb_bad_program
    fail_if (ltb tick_array_count 1 || ltb 3 tick_array_count) (arb_err arb_bad_account_count)
    require_key accounts (base + 1)
        (rt.find_program_address (Constants.whirlpool_auth_seed ∷ []) Constants.whirlpool_id)
        arb_bad_pda
    require_owner accounts (base + 2) Constants.whirlpool_id arb_bad_program
    require_oracle
    require_either accounts (base + 11) Constants.token_id token22 arb_bad_program

  require_oracle-Safe : base + whirlpool_fixed_len ≤ length accounts → Safe require_oracle
  unfolding require_oracle
  require_oracle-Safe h =
      >>=-Safe (account-Safe accounts _ (omega arith))
        (λ whirlpool _. require_key-Safe accounts _ _ _ (omega arith))

  pub validate_section-Safe :
      base + whirlpool_fixed_len + tick_array_count ≤ length accounts → Safe validate_section
  unfolding validate_section
  validate_section-Safe h = >>-Safe (require_key-Safe accounts _ _ _ (omega arith)) (
      >>-Safe (fail_if-Safe _ _) (
        >>-Safe (require_key-Safe accounts _ _ _ (omega arith)) (
          >>-Safe (require_owner-Safe accounts _ _ _ (omega arith)) (
            >>-Safe (require_oracle-Safe (omega arith))
              (require_either-Safe accounts _ _ _ _ (omega arith))))))
