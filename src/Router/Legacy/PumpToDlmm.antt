-- ===== src/Router/Legacy/PumpToDlmm.antt =====
-- programs/arbitrage/src/instructions/route_pump_to_dlmm.rs.
use solana_atomic_arbitrage.Base.{ℕ, ◌+◌, not, List, [], ◌∷◌, none, length, ltb}
use solana_atomic_arbitrage.Router.Constants
use solana_atomic_arbitrage.Router.Error.{
  arb_err, arb_bad_account_count, arb_bad_mint, arb_bad_pda, arb_bad_program,
}
use solana_atomic_arbitrage.Router.Instruction.{RouteArgs, parse_args}
use solana_atomic_arbitrage.Router.Types.{
  AccountInfo, Runtime, Result, ◌>>=◌, ◌>>◌, fail_if, account, missing_required_signature,
}
use solana_atomic_arbitrage.Router.Dex.Checks.{KeyCheck, require_keys}
use solana_atomic_arbitrage.Router.Dex.Dlmm.{require_oracle}
use solana_atomic_arbitrage.Router.Cpi.PumpSwap.{build_buy}
use solana_atomic_arbitrage.Router.Cpi.Dlmm.{build_swap2}
use solana_atomic_arbitrage.Router.Trade.{trade}
use solana_atomic_arbitrage.Router.Legacy.Shared.{
  check_counts, event_authority, global_config, fee_config, ordered, invoke_pump, invoke_dlmm,
}

abbrev pub pump_base : ℕ
pump_base = Constants.shared_fixed_len

abbrev pub dlmm_base : RouteArgs → ℕ
dlmm_base args = pump_base + (Constants.pump_buy_fixed_len + args.first_count)

abbrev pub total_expected : RouteArgs → ℕ
total_expected args = dlmm_base args + Constants.dlmm_fixed_len + args.second_count

module _ (rt : Runtime) (accounts : List AccountInfo) (args : RouteArgs) where
  abbrev pub program_checks : List KeyCheck
  program_checks =
      (pump_base + Constants.pump_buy_program, Constants.pump_swap_id, arb_bad_program)
      ∷ (dlmm_base args + Constants.dlmm_program_rel, Constants.dlmm_id, arb_bad_program)
      ∷ (pump_base + Constants.pump_buy_quote_mint, Constants.native_sol_mint, arb_bad_mint)
      ∷ (pump_base + Constants.pump_buy_quote_token_program, Constants.token_id, arb_bad_program)
      ∷ (pump_base + Constants.pump_buy_system_program, Constants.system_id, arb_bad_program)
      ∷ (pump_base + Constants.pump_buy_ata_program, Constants.ata_id, arb_bad_program)
      ∷ (pump_base + Constants.pump_buy_fee_program, Constants.fee_program_id, arb_bad_program)
      ∷ []

  abbrev pub pda_checks : List KeyCheck
  pda_checks =
      (pump_base + Constants.pump_buy_event_authority, event_authority rt, arb_bad_pda)
      ∷ (pump_base + Constants.pump_buy_global_config, global_config rt, arb_bad_pda)
      ∷ (pump_base + Constants.pump_buy_fee_config, fee_config rt, arb_bad_pda)
      ∷ (dlmm_base args + Constants.dlmm_event_auth_rel, Constants.dlmm_event_auth, arb_bad_program)
      ∷ (dlmm_base args + Constants.dlmm_memo_rel, Constants.memo_id, arb_bad_program)
      ∷ []

  -- The fixed accounts of both sections, the signer and the PDAs.
  unfoldable pub check_accounts : Result (Unit {0})
  check_accounts = do
    require_keys accounts program_checks
    user ← account accounts Constants.user_idx
    fail_if (not user.is_signer) missing_required_signature
    require_keys accounts pda_checks
    require_oracle rt accounts (dlmm_base args) args.second_count

-- Step 5: the PumpSwap buy; the primary meme account is used, so nothing is overridden.
unfoldable pub buy_leg : Runtime → RouteArgs → List AccountInfo → Result (List AccountInfo)
buy_leg rt args accounts = do
  ix ←
      build_buy accounts pump_base args.first_count args.amount_in args.min_intermediate
        args.track_volume none
  invoke_pump rt ix accounts

-- Step 6: the DLMM sell of all that was received.
unfoldable pub sell_leg : Runtime → RouteArgs → ℕ → List AccountInfo → Result (List AccountInfo)
sell_leg rt args received accounts = do
  let progs =
      ordered args.sol_is_x (pump_base + Constants.pump_buy_quote_token_program)
        (pump_base + Constants.pump_buy_base_token_program)
  let mints =
      ordered args.sol_is_x (pump_base + Constants.pump_buy_quote_mint)
        (pump_base + Constants.pump_buy_base_mint)
  ix ←
      build_swap2 accounts (dlmm_base args) received mints.0 mints.1 progs.0 progs.1
        Constants.user_idx Constants.user_meme_ata_idx Constants.user_sol_ata_idx args.second_count
  invoke_dlmm rt ix accounts

unfoldable pub handle : Runtime → List AccountInfo → List ℕ → Result (List AccountInfo)
handle rt accounts bytes = do
  args ← parse_args bytes
  check_counts args.first_count args.second_count
  fail_if (ltb (length accounts) (total_expected args)) (arb_err arb_bad_account_count)
  check_accounts rt accounts args
  trade (buy_leg rt args) (sell_leg rt args) args.min_profit accounts
