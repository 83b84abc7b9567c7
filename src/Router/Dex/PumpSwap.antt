-- ===== src/Router/Dex/PumpSwap.antt =====
-- programs/arbitrage/src/instructions/dex_pumpswap.rs: the PumpSwap section.
use solana_atomic_arbitrage.Base.{ℕ, ◌+◌, ◌≤◌, List, [], ◌∷◌, length, arith}
use solana_atomic_arbitrage.Router.Constants
use solana_atomic_arbitrage.Router.Error.{arb_bad_program, arb_bad_pda}
use solana_atomic_arbitrage.Router.Types.{AccountInfo, Runtime, Result, ◌>>◌}
use solana_atomic_arbitrage.Router.Results.{Safe, >>-Safe}
use solana_atomic_arbitrage.Router.Dex.Checks.{require_key, require_key-Safe}

abbrev pub pumpswap_buy_fixed_len : ℕ
pumpswap_buy_fixed_len = Constants.pump_buy_fixed_len

module _ (rt : Runtime) (accounts : List AccountInfo) (base remaining : ℕ) where
  unfoldable pub validate_section : Result (Unit {0})
  validate_section = do
    require_key accounts (base + Constants.pump_buy_program) Constants.pump_swap_id arb_bad_program
    require_key accounts (base + Constants.pump_buy_global_config)
        (rt.find_program_address (Constants.pump_global_config_seed ∷ []) Constants.pump_swap_id)
        arb_bad_pda
    require_key accounts (base + Constants.pump_buy_event_authority)
        (rt.find_program_address (Constants.pump_event_auth_seed ∷ []) Constants.pump_swap_id)
        arb_bad_pda

  pub validate_section-Safe :
      base + pumpswap_buy_fixed_len + remaining ≤ length accounts → Safe validate_section
  unfolding validate_section
  validate_section-Safe h = >>-Safe (require_key-Safe accounts _ _ _ (omega arith)) (
      >>-Safe (require_key-Safe accounts _ _ _ (omega arith))
        (require_key-Safe accounts _ _ _ (omega arith)))
