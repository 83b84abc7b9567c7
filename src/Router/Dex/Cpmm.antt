-- ===== src/Router/Dex/Cpmm.antt =====
-- programs/arbitrage/src/instructions/dex_cpmm.rs: the Raydium CPMM section. The check of the
-- well-known configuration has an empty body in the source, so it is no step here but the read.
use solana_atomic_arbitrage.Base.{ℕ, ◌+◌, ◌≤◌, List, [], ◌∷◌, length, arith}
use solana_atomic_arbitrage.Router.Constants
use solana_atomic_arbitrage.Router.Error.{arb_bad_program, arb_bad_pda}
use solana_atomic_arbitrage.Router.Types.{
  Pubkey, AccountInfo, Runtime, Result, ◌>>=◌, ◌>>◌, account, as_ref,
}
use solana_atomic_arbitrage.Router.Results.{Safe, >>=-Safe, >>-Safe, account-Safe}
use solana_atomic_arbitrage.Router.Dex.Checks.{
  require_key, require_owner, require_either, require_key-Safe, require_owner-Safe,
  require_either-Safe,
}

abbrev pub cpmm_fixed_len : ℕ
cpmm_fixed_len = 13

-- The Token-2022 program, `TokenzQdBNbLqP5VEhdkAS6EPFLC1PHnBqCXEpPxuEb`.
abbrev pub token22 : Pubkey
token22 = 0x6ddf6e1ee758fde18425dbce46ccddab61afc4d83b90d27febdf928d8a18bfc

module _ (rt : Runtime) (accounts : List AccountInfo) (base remaining : ℕ) where
  -- The authority is the PDA of the pool at index 3.
  unfoldable pub require_authority : Result (Unit {0})
  require_authority = do
    pool_state ← account accounts (base + 3)
    require_key accounts (base + 1)
        (rt.find_program_address (Constants.cpmm_auth_seed ∷ as_ref pool_state.key ∷ [])
          Constants.cpmm_id)
        arb_bad_pda

  unfoldable pub validate_section : Result (Unit {0})
  validate_section = do
    require_key accounts base Constants.cpmm_id arb_bad_program
    amm_config ← account accounts (base + 2)
    require_either accounts (base + 10) Constants.token_id token22 arb_bad_program
    require_either accounts (base + 11) Constants.token_id token22 arb_bad_program
    require_key accounts (base + 12) Constants.memo_id arb_bad_program
    require_authority
    require_owner accounts (base + 3) Constants.cpmm_id arb_bad_program

  require_authority-Safe : base + cpmm_fixed_len ≤ length accounts → Safe require_authority
  unfolding require_authority
  require_authority-Safe h =
      >>=-Safe (account-Safe accounts _ (omega arith))
        (λ pool_state _. require_key-Safe accounts _ _ _ (omega arith))

  pub validate_section-Safe :
      base + cpmm_fixed_len + remaining ≤ length accounts → Safe validate_section
  unfolding validate_section
  validate_section-Safe h = >>-Safe (require_key-Safe accounts _ _ _ (omega arith)) (
      >>=-Safe (account-Safe accounts _ (omega arith)) λ amm_config _.
        >>-Safe (require_either-Safe accounts _ _ _ _ (omega arith)) (
          >>-Safe (require_either-Safe accounts _ _ _ _ (omega arith)) (
            >>-Safe (require_key-Safe accounts _ _ _ (omega arith)) (
              >>-Safe (require_authority-Safe (omega arith))
                (require_owner-Safe accounts _ _ _ (omega arith))))))
