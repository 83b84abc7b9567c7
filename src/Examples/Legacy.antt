-- ===== src/Examples/Legacy.antt =====
-- The legacy routes at runs that succeed.
use solana_atomic_arbitrage.Base.{◌≡◌, refl}
use solana_atomic_arbitrage.Base.Bytes.{from_le_bytes, to_le_bytes, to_be_bytes}
use solana_atomic_arbitrage.Base.Checked.{checked_add, checked_sub}
use solana_atomic_arbitrage.Client.Route.Encode.{build_ix_data}
use solana_atomic_arbitrage.Examples.Accounts.{
  trading_runtime, dlmm_first, pump_to_dlmm_accounts, dlmm_to_pump_accounts, pump_to_dlmm_bytes,
  dlmm_to_pump_bytes,
}
use solana_atomic_arbitrage.Router.Accounting.{read_token_amount, aggregate_sol_balance}
use solana_atomic_arbitrage.Router.Cpi.Dlmm.{build_swap2, bin_array_slots}
use solana_atomic_arbitrage.Router.Cpi.Metas.{acct, acct_all, build_meta, remaining_metas}
use solana_atomic_arbitrage.Router.Cpi.PumpSwap.{build_buy, build_sell, override_base_ata}
use solana_atomic_arbitrage.Router.Dex.Checks.{require_key, require_keys}
use solana_atomic_arbitrage.Router.Dex.Dlmm.{require_oracle}
use solana_atomic_arbitrage.Router.Instruction.{read_args, parse_args}
use solana_atomic_arbitrage.Router.Legacy.DlmmToPump
use solana_atomic_arbitrage.Router.Legacy.Traded.{TradedPumpFirst, pump_to_dlmm-TradedPumpFirst}
use solana_atomic_arbitrage.Router.Legacy.Traded.DlmmFirst.{
  TradedDlmmFirst, dlmm_to_pump-TradedDlmmFirst,
}
use solana_atomic_arbitrage.Router.Legacy.PumpToDlmm
use solana_atomic_arbitrage.Router.Legacy.Shared.{check_counts, invoke_pump, invoke_dlmm}
use solana_atomic_arbitrage.Router.Trade.{sol_balance, meme_balance, meme_received, settle, trade}
use solana_atomic_arbitrage.Router.Types.{ok, ◌>>=◌, fail_if, ok_or, account, as_ref}
use solana_atomic_arbitrage.Router.Slices.{slice_at, u64_at}

-- The legacy routes, opened: their runs are computed.
legacy_run : Unit {0}
unfolding build_ix_data parse_args read_args u64_at slice_at check_counts PumpToDlmm.handle
    PumpToDlmm.check_accounts PumpToDlmm.buy_leg PumpToDlmm.sell_leg DlmmToPump.handle
    DlmmToPump.check_accounts DlmmToPump.buy_leg DlmmToPump.sell_leg require_keys require_key
    require_oracle invoke_pump invoke_dlmm trade sol_balance meme_balance meme_received settle
    aggregate_sol_balance read_token_amount build_buy build_sell override_base_ata build_swap2
    bin_array_slots build_meta acct_all acct remaining_metas ◌>>=◌ account fail_if ok_or
    from_le_bytes to_le_bytes to_be_bytes as_ref checked_add checked_sub
legacy_run = tt

pump_to_dlmm_runs :
    PumpToDlmm.handle trading_runtime (pump_to_dlmm_accounts 1000 0) pump_to_dlmm_bytes
    ≡ ok (pump_to_dlmm_accounts 1050 0)
unfolding legacy_run
pump_to_dlmm_runs = refl

pump_to_dlmm-TradedPumpFirst_example :
    TradedPumpFirst trading_runtime
      (pump_to_dlmm_accounts 1000 0)
      pump_to_dlmm_bytes
      (pump_to_dlmm_accounts 1050 0)
pump_to_dlmm-TradedPumpFirst_example =
    pump_to_dlmm-TradedPumpFirst trading_runtime (pump_to_dlmm_accounts 1000 0) pump_to_dlmm_bytes
      pump_to_dlmm_runs

dlmm_to_pump_runs :
    DlmmToPump.handle dlmm_first (dlmm_to_pump_accounts 1000 0) dlmm_to_pump_bytes
    ≡ ok (dlmm_to_pump_accounts 1050 0)
unfolding legacy_run
dlmm_to_pump_runs = refl

dlmm_to_pump-TradedDlmmFirst_example :
    TradedDlmmFirst dlmm_first
      (dlmm_to_pump_accounts 1000 0)
      dlmm_to_pump_bytes
      (dlmm_to_pump_accounts 1050 0)
dlmm_to_pump-TradedDlmmFirst_example =
    dlmm_to_pump-TradedDlmmFirst dlmm_first (dlmm_to_pump_accounts 1000 0) dlmm_to_pump_bytes
      dlmm_to_pump_runs
