-- ===== src/Router/Legacy/Shared.antt =====
-- The parts that route_pump_to_dlmm.rs and route_dlmm_to_pump.rs share: the counts check, and the
-- fee-config PDA.
use solana_atomic_arbitrage.Base.{ℕ, Bool, List, [], ◌∷◌, ltb, ◌||◌, if◌then◌else◌}
use solana_atomic_arbitrage.Router.Constants
use solana_atomic_arbitrage.Router.Error.{
  arb_err, arb_bad_account_count, arb_pump_cpi_failed, arb_dlmm_cpi_failed,
}
use solana_atomic_arbitrage.Router.Types.{
  Pubkey, AccountInfo, Instruction, Runtime, Result, fail_if, ok_or, as_ref,
}

-- `pump_remaining_count > 5 || !(1..=6).contains(&dlmm_bin_array_count)`
unfoldable pub check_counts : ℕ → ℕ → Result (Unit {0})
check_counts pump_remaining bin_arrays =
    fail_if (ltb 5 pump_remaining || (ltb bin_arrays 1 || ltb 6 bin_arrays))
      (arb_err arb_bad_account_count)

abbrev pub event_authority : Runtime → Pubkey
event_authority rt =
    rt.find_program_address (Constants.pump_event_auth_seed ∷ []) Constants.pump_swap_id

abbrev pub global_config : Runtime → Pubkey
global_config rt =
    rt.find_program_address (Constants.pump_global_config_seed ∷ []) Constants.pump_swap_id

abbrev pub fee_config : Runtime → Pubkey
fee_config rt =
    rt.find_program_address (Constants.pump_fee_config_seed ∷ as_ref Constants.pump_swap_id ∷ [])
      Constants.fee_program_id

-- The order of a pair of indices by which of the DLMM tokens is SOL.
abbrev pub ordered : Bool → ℕ → ℕ → ℕ × ℕ
ordered sol_is_x sol meme = if sol_is_x then (sol, meme) else (meme, sol)

unfoldable pub invoke_pump : Runtime → Instruction → List AccountInfo → Result (List AccountInfo)
invoke_pump rt ix accounts = ok_or (rt.invoke ix accounts) (arb_err arb_pump_cpi_failed)

unfoldable pub invoke_dlmm : Runtime → Instruction → List AccountInfo → Result (List AccountInfo)
invoke_dlmm rt ix accounts = ok_or (rt.invoke ix accounts) (arb_err arb_dlmm_cpi_failed)
