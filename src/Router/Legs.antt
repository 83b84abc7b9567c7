-- ===== src/Router/Legs.antt =====
-- programs/arbitrage/src/instructions/orchestrate.rs: `execute_buy_leg` and `execute_sell_leg`. The
-- instruction that a leg builds is a function of its own, and the leg invokes it.
pub mod Safety
pub mod BinArrays
use solana_atomic_arbitrage.Base.{ℕ, ◌+◌, ◌≡◌, Bool, true, false, List, none}
use solana_atomic_arbitrage.Router.Constants
use solana_atomic_arbitrage.Router.Error.{
  arb_err, arb_pump_cpi_failed, arb_dlmm_cpi_failed, arb_cpmm_cpi_failed, arb_whirlpool_cpi_failed,
}
use solana_atomic_arbitrage.Router.Types.{AccountInfo, Instruction, Runtime, Result, ◌>>=◌, ok_or}
use solana_atomic_arbitrage.Router.Dex.Dlmm.{
  dlmm_token_x_mint_off, dlmm_token_y_mint_off, dlmm_token_x_prog_off, dlmm_token_y_prog_off,
}
use solana_atomic_arbitrage.Router.Dex.Whirlpool.{whirlpool_token_prog_off}
use solana_atomic_arbitrage.Router.Dex.Kind.{DexKind, pump_swap, dlmm, cpmm, whirlpool}
use solana_atomic_arbitrage.Router.Cpi.PumpSwap
use solana_atomic_arbitrage.Router.Cpi.Dlmm
use solana_atomic_arbitrage.Router.Cpi.Cpmm
use solana_atomic_arbitrage.Router.Cpi.Whirlpool

-- The error that a failed call of each DEX is mapped to.
unfoldable pub cpi_failed : DexKind → ℕ
cpi_failed pump_swap = arb_pump_cpi_failed
cpi_failed dlmm = arb_dlmm_cpi_failed
cpi_failed cpmm = arb_cpmm_cpi_failed
cpi_failed whirlpool = arb_whirlpool_cpi_failed

module _ (accounts : List AccountInfo) where
  -- `build_swap2_cpi` of the generic orchestrator, with the mints and programs of the section.
  unfoldable pub generic_swap2 : ℕ → ℕ → ℕ → ℕ → ℕ → Result Instruction
  generic_swap2 base remaining amount_in token_in token_out =
      Dlmm.build_swap2 accounts base amount_in (base + dlmm_token_x_mint_off)
        (base + dlmm_token_y_mint_off) (base + dlmm_token_x_prog_off) (base + dlmm_token_y_prog_off)
        Constants.user_idx token_in token_out remaining

  -- SOL is the input, the meme token the output.
  unfoldable pub buy_instruction : DexKind → ℕ → ℕ → ℕ → ℕ → Result Instruction
  buy_instruction pump_swap base remaining amount_in min_meme_out =
      PumpSwap.build_buy accounts base remaining amount_in min_meme_out false none
  buy_instruction dlmm base remaining amount_in min_meme_out =
      generic_swap2 base remaining amount_in Constants.user_sol_ata_idx Constants.user_meme_ata_idx
  buy_instruction cpmm base remaining amount_in min_meme_out =
      Cpmm.build_swap accounts base amount_in min_meme_out Constants.user_idx (base + 8) (base + 9)
        Constants.user_sol_ata_idx Constants.user_meme_ata_idx (base + 10) (base + 11) (base + 12)
  buy_instruction whirlpool base remaining amount_in min_meme_out =
      Whirlpool.build_swap accounts base remaining amount_in min_meme_out true
        (base + whirlpool_token_prog_off) (base + whirlpool_token_prog_off)
        Constants.user_sol_ata_idx Constants.user_meme_ata_idx

  -- The meme token is the input, SOL the output.
  unfoldable pub sell_instruction : DexKind → ℕ → ℕ → ℕ → ℕ → Result Instruction
  sell_instruction pump_swap base remaining amount_in min_sol_out =
      PumpSwap.build_sell accounts base remaining amount_in min_sol_out none
  sell_instruction dlmm base remaining amount_in min_sol_out =
      generic_swap2 base remaining amount_in Constants.user_meme_ata_idx Constants.user_sol_ata_idx
  sell_instruction cpmm base remaining amount_in min_sol_out =
      Cpmm.build_swap accounts base amount_in min_sol_out Constants.user_idx (base + 8) (base + 9)
        Constants.user_meme_ata_idx Constants.user_sol_ata_idx (base + 10) (base + 11) (base + 12)
  sell_instruction whirlpool base remaining amount_in min_sol_out =
      Whirlpool.build_swap accounts base remaining amount_in min_sol_out false
        (base + whirlpool_token_prog_off) (base + whirlpool_token_prog_off)
        Constants.user_meme_ata_idx Constants.user_sol_ata_idx

-- The last argument, `_sol_is_input` or `_sol_is_output`, is not used, as in the source.
module _ (rt : Runtime) (accounts : List AccountInfo) where
  unfoldable pub execute_buy_leg : DexKind → ℕ → ℕ → ℕ → ℕ → Bool → Result (List AccountInfo)
  execute_buy_leg kind base remaining amount_in min_meme_out sol_is_input = do
    ix ← buy_instruction accounts kind base remaining amount_in min_meme_out
    ok_or (rt.invoke ix accounts) (arb_err (cpi_failed kind))

  unfoldable pub execute_sell_leg : DexKind → ℕ → ℕ → ℕ → ℕ → Bool → Result (List AccountInfo)
  execute_sell_leg kind base remaining amount_in min_sol_out sol_is_output = do
    ix ← sell_instruction accounts kind base remaining amount_in min_sol_out
    ok_or (rt.invoke ix accounts) (arb_err (cpi_failed kind))
