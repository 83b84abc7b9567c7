-- ===== src/Examples/Router.antt =====
-- The router's theorems at a generic route that succeeds.
use solana_atomic_arbitrage.Base.{
  ℕ, ◌<◌, ◌≡◌, ◌≢◌, refl, List, ◌↔◌, replicate, ◌++◌, ◌∷◌, [], get_elem?, some, false, ◌+◌,
}
use solana_atomic_arbitrage.Base.Bytes.{from_le_bytes, to_le_bytes, to_be_bytes}
use solana_atomic_arbitrage.Base.Checked.{checked_add, checked_sub}
use solana_atomic_arbitrage.Examples.Accounts.{
  trading_runtime, generic_accounts, generic_bytes, trading_runtime-KeepsLength, plain,
}
use solana_atomic_arbitrage.Client.Route.Encode.{build_ix_data}
use solana_atomic_arbitrage.Router.Types.{
  AccountInfo, Result, ok, panic, ◌>>=◌, fail_if, ok_or, account, as_ref, AccountMeta, Instruction,
  writable, readonly,
}
use solana_atomic_arbitrage.Router.Accounting.{read_token_amount, aggregate_sol_balance}
use solana_atomic_arbitrage.Router.Cpi.Metas.{acct, acct_all, build_meta, remaining_metas}
use solana_atomic_arbitrage.Router.Cpi.PumpSwap.{build_buy, override_base_ata}
use solana_atomic_arbitrage.Router.Cpi.Cpmm
use solana_atomic_arbitrage.Router.Constants
use solana_atomic_arbitrage.Router.Dex.Checks.{require_key, require_owner, require_either}
use solana_atomic_arbitrage.Router.Dex.PumpSwap
use solana_atomic_arbitrage.Router.Dex.Cpmm as CpmmSection
use solana_atomic_arbitrage.Router.Dex.Kind.{
  fixed_len, from_program_id, same_kind, probe_far, or_probe, identify_dex, validate_dex_section,
}
use solana_atomic_arbitrage.Router.Entry.{same_bytes, dispatch, process_instruction}
use solana_atomic_arbitrage.Router.Entry.Profit.{asked_profit, process_instruction-IsProfitable}
use solana_atomic_arbitrage.Router.Instruction.{read_args, parse_args}
use solana_atomic_arbitrage.Router.Legs.{
  buy_instruction, sell_instruction, execute_buy_leg, execute_sell_leg, cpi_failed, generic_swap2,
}
use solana_atomic_arbitrage.Router.Orchestrate.{locate, validate, run_route, handle}
use solana_atomic_arbitrage.Router.Trade.{sol_balance, meme_balance, meme_received, settle, trade}
use solana_atomic_arbitrage.Router.Trade.Profit.{IsProfitable, Completed}
use solana_atomic_arbitrage.Router.Orchestrate.Guards.{Admitted, handle-Admitted}
use solana_atomic_arbitrage.Router.Entry.Safety.{process_instruction-ne-panic}
use solana_atomic_arbitrage.Router.Trade.Exact.{trade_iff_Completed}
use solana_atomic_arbitrage.Router.Legs.BinArrays.{generic_swap2-first_bin}
use solana_atomic_arbitrage.Router.Cpi.Dlmm.{build_swap2, bin_array_slots}
use solana_atomic_arbitrage.Router.Dex.Dlmm.{dlmm_token_x_mint_off}
use solana_atomic_arbitrage.Router.Slices.{slice_at, u64_at}

-- The generic route, opened: its run is computed.
generic_run : Unit {0}
unfolding build_ix_data u64_at slice_at process_instruction dispatch same_bytes handle parse_args
    read_args locate identify_dex probe_far or_probe from_program_id same_kind fixed_len validate
    validate_dex_section PumpSwap.validate_section CpmmSection.validate_section
    CpmmSection.require_authority require_key require_owner require_either run_route trade
    sol_balance meme_balance meme_received settle aggregate_sol_balance read_token_amount
    execute_buy_leg execute_sell_leg buy_instruction sell_instruction build_buy override_base_ata
    Cpmm.build_swap build_meta acct_all acct remaining_metas cpi_failed ◌>>=◌ account fail_if ok_or
    from_le_bytes to_le_bytes to_be_bytes as_ref checked_add checked_sub
generic_run = tt

process_instruction_runs :
    process_instruction trading_runtime (generic_accounts 1000 0) generic_bytes
    ≡ ok (generic_accounts 1050 0)
unfolding generic_run
process_instruction_runs = refl

process_instruction-IsProfitable_example :
    (0 < asked_profit generic_bytes)
    × IsProfitable (asked_profit generic_bytes) (generic_accounts 1000 0) (generic_accounts 1050 0)
process_instruction-IsProfitable_example =
    process_instruction-IsProfitable trading_runtime (generic_accounts 1000 0) generic_bytes
      process_instruction_runs

handle_runs :
    handle trading_runtime (generic_accounts 1000 0) generic_bytes ≡ ok (generic_accounts 1050 0)
unfolding generic_run
handle_runs = refl

handle-Admitted_example :
    Admitted trading_runtime (generic_accounts 1000 0) generic_bytes (generic_accounts 1050 0)
handle-Admitted_example =
    handle-Admitted trading_runtime (generic_accounts 1000 0) generic_bytes handle_runs

process_instruction-ne-panic_example :
    process_instruction trading_runtime (generic_accounts 1000 0) generic_bytes ≢ panic
process_instruction-ne-panic_example =
    process_instruction-ne-panic trading_runtime (generic_accounts 1000 0) generic_bytes
      trading_runtime-KeepsLength

-- A trade whose first leg brings 500 tokens and whose second leg sells them.
abbrev buys_500 : List AccountInfo → Result (List AccountInfo)
buys_500 accounts = ok (generic_accounts 900 500)

abbrev sells_all : ℕ → List AccountInfo → Result (List AccountInfo)
sells_all received accounts = ok (generic_accounts 1050 0)

trade_iff_Completed_example :
    (trade buys_500 sells_all 50 (generic_accounts 1000 0) ≡ ok (generic_accounts 1050 0))
    ↔ Completed buys_500 sells_all 50 (generic_accounts 1000 0) (generic_accounts 1050 0)
trade_iff_Completed_example =
    trade_iff_Completed buys_500 sells_all 50 (generic_accounts 1000 0) (generic_accounts 1050 0)

abbrev same_accounts : List AccountInfo
same_accounts = replicate 20 (plain 300 0)

abbrev read_write : AccountMeta
read_write = writable 300 false

abbrev read_only : AccountMeta
read_only = readonly 300 false

abbrev swap2_ix : Instruction
swap2_ix = record {
  program_id = 300;
  accounts =
      replicate 6 read_write
      ++ read_only ∷ read_only ∷ read_write ∷ read_write ∷ replicate 6 read_only
      ++ read_write ∷ [];
  bytes = Constants.dlmm_swap2_disc ++ (to_le_bytes 8 100 ++ (to_le_bytes 8 1 ++ to_le_bytes 4 0));
}

swap2_built : generic_swap2 same_accounts 3 1 100 1 2 ≡ ok swap2_ix
unfolding generic_run generic_swap2 build_swap2 bin_array_slots
swap2_built = refl

generic_swap2-first_bin_example :
    (mint : AccountInfo) × (account same_accounts (3 + dlmm_token_x_mint_off) ≡ ok mint)
    × (get_elem? swap2_ix.accounts 16 ≡ some (writable mint.key mint.is_signer))
generic_swap2-first_bin_example = generic_swap2-first_bin same_accounts 3 0 100 1 2 swap2_built
