-- ===== src/Examples/Client.antt =====
-- The client's theorems at concrete pools.
use solana_atomic_arbitrage.Base.{
  if◌then◌else◌, ◌+◌, ◌≡◌, ◌≢◌, refl, true, false, List, [], ◌∷◌, map, some, none, length, arith,
}
use solana_atomic_arbitrage.Client.Constants as Sent
use solana_atomic_arbitrage.Client.Estimate.{checked_estimate_swap_output}
use solana_atomic_arbitrage.Client.Estimate.Agreement.{
  output_of, checked_estimate_swap_output-eq-cpmm, checked_estimate_swap_output-empty,
}
use solana_atomic_arbitrage.Client.Route.Encode.{build_ix_data}
use solana_atomic_arbitrage.Client.Route.Generic.{
  ix_remaining, generic_data, dex_kind_whirlpool, generic-whirlpool_fails,
}
use solana_atomic_arbitrage.Client.Route.Layout.{
  build_route_pump_to_dlmm, length-buy_remaining, build_route_dlmm_to_pump, shared_accounts,
}
use solana_atomic_arbitrage.Client.Route.Roundtrip.{parse_args-build_ix_data}
use solana_atomic_arbitrage.Client.Route.Sections.{
  buy_remaining, sell_remaining, pumpswap_buy_remaining_count, pumpswap_sell_remaining_count,
}
use solana_atomic_arbitrage.Examples.Accounts.{
  mainnet, route_keys, pool_meta, load, map-load-Loaded, plain, cpmm_keys, dlmm_pool, route_inputs,
}
use solana_atomic_arbitrage.Router.Constants
use solana_atomic_arbitrage.Router.Legacy.DlmmToPump
use solana_atomic_arbitrage.Router.Dex.Cpmm
use solana_atomic_arbitrage.Router.Legacy.PumpToDlmm
use solana_atomic_arbitrage.Router.Dex.Kind.{
  whirlpool, identify_dex, from_program_id, or_probe, probe_far,
}
use solana_atomic_arbitrage.Router.Entry.{process_instruction}
use solana_atomic_arbitrage.Router.Instruction.{parse_args}
use solana_atomic_arbitrage.Router.Orchestrate.{handle}
use solana_atomic_arbitrage.Router.Pricing.Cpmm.{cpmm_swap_output}
use solana_atomic_arbitrage.Router.Trade.{trade}
use solana_atomic_arbitrage.Router.Types.{AccountInfo, Instruction, ok, ◌>>=◌, account, writable}
use solana_atomic_arbitrage.Client.Route.GenericSections.{push_cpmm_accounts, cpmm_section}
use solana_atomic_arbitrage.Client.Route.Accepted.Generic.{validate_section-push_cpmm_accounts}
use solana_atomic_arbitrage.Client.Route.Accepted.Routes.{
  pump_to_dlmm_args, dlmm_to_pump_args, process_instruction-build_route_pump_to_dlmm,
  process_instruction-build_route_dlmm_to_pump,
}
use solana_atomic_arbitrage.Client.Route.SectionData.{pumpswap_section_data}
use solana_atomic_arbitrage.Client.Route.SectionData.Counts.{sell_remaining-remaining_count}

abbrev sent : Instruction
sent = build_route_pump_to_dlmm mainnet route_inputs dlmm_pool pool_meta

process_instruction-build_route_pump_to_dlmm_example :
    process_instruction mainnet (map load sent.accounts) sent.bytes
    ≡ trade
        (PumpToDlmm.buy_leg mainnet (pump_to_dlmm_args route_inputs dlmm_pool pool_meta))
        (PumpToDlmm.sell_leg mainnet (pump_to_dlmm_args route_inputs dlmm_pool pool_meta))
        7000
        (map load sent.accounts)
process_instruction-build_route_pump_to_dlmm_example =
    process_instruction-build_route_pump_to_dlmm mainnet route_inputs dlmm_pool pool_meta
      (map load sent.accounts) (map-load-Loaded sent.accounts) refl refl (omega arith) (omega arith)
      (omega arith) (omega arith) (omega arith) (omega arith)

abbrev sent_back : Instruction
sent_back = build_route_dlmm_to_pump mainnet route_inputs dlmm_pool pool_meta

process_instruction-build_route_dlmm_to_pump_example :
    process_instruction mainnet (map load sent_back.accounts) sent_back.bytes
    ≡ trade
        (DlmmToPump.buy_leg mainnet (dlmm_to_pump_args route_inputs dlmm_pool pool_meta))
        (DlmmToPump.sell_leg mainnet (dlmm_to_pump_args route_inputs dlmm_pool pool_meta))
        7000
        (map load sent_back.accounts)
process_instruction-build_route_dlmm_to_pump_example =
    process_instruction-build_route_dlmm_to_pump mainnet route_inputs dlmm_pool pool_meta
      (map load sent_back.accounts) (map-load-Loaded sent_back.accounts) refl refl (omega arith)
      (omega arith) (omega arith) (omega arith) (omega arith) (omega arith)

parse_args-build_ix_data_example :
    parse_args (build_ix_data Sent.route_disc 1000000 7000 450 false true 3 2)
    ≡ ok (record {
      amount_in = 1000000;
      min_profit = 7000;
      min_intermediate = 450;
      track_volume = false;
      sol_is_x = true;
      first_count = 3;
      second_count = 2;
    })
parse_args-build_ix_data_example =
    parse_args-build_ix_data Sent.route_disc 1000000 7000 450 false true 3 2 refl (omega arith)
      (omega arith) (omega arith) (omega arith) (omega arith)

length-buy_remaining_example :
    length (buy_remaining mainnet route_keys pool_meta) ≡ pumpswap_buy_remaining_count pool_meta
length-buy_remaining_example = length-buy_remaining mainnet route_keys pool_meta

sell_remaining-remaining_count_example :
    (length (sell_remaining mainnet route_keys pool_meta) ≡ pumpswap_sell_remaining_count pool_meta)
    × (length (sell_remaining mainnet route_keys pool_meta)
        ≡ (pumpswap_section_data pool_meta 3).remaining_count
          + (if pool_meta.is_cashback_coin then 1 else 0))
sell_remaining-remaining_count_example =
    sell_remaining-remaining_count mainnet route_keys pool_meta 3

abbrev whirlpool_accounts : List AccountInfo
whirlpool_accounts = plain 1 0 ∷ plain 2 0 ∷ plain 3 0 ∷ plain Constants.whirlpool_id 0 ∷ []

found : identify_dex whirlpool_accounts 3 ≡ ok (some whirlpool)
unfolding identify_dex from_program_id or_probe probe_far ◌>>=◌ account
found = refl

generic-whirlpool_fails_example :
    handle mainnet whirlpool_accounts
      (generic_data 1000000 7000 450 true (ix_remaining dex_kind_whirlpool 3 none) 2)
    ≢ ok whirlpool_accounts
generic-whirlpool_fails_example =
    generic-whirlpool_fails mainnet whirlpool_accounts whirlpool_accounts 1000000 7000 450 true 3 2
      none (omega arith) (omega arith) (omega arith) (omega arith) (omega arith) found

checked_estimate_swap_output-eq-cpmm_example :
    checked_estimate_swap_output 80000000000 1000000000 1000000 30
    ≡ output_of (cpmm_swap_output 80000000000 1000000000 1000000 30)
checked_estimate_swap_output-eq-cpmm_example =
    checked_estimate_swap_output-eq-cpmm 80000000000 1000000000 1000000 30 (omega arith)
      (omega arith) (omega arith) (omega arith) (omega arith) (omega arith) (omega arith)

checked_estimate_swap_output-empty_example :
    (checked_estimate_swap_output 0 5000 100 25 ≡ some 5000)
    × (cpmm_swap_output 0 5000 100 25 ≡ none)
checked_estimate_swap_output-empty_example =
    checked_estimate_swap_output-empty 5000 100 25 (omega arith) (omega arith) (omega arith)
      (omega arith) (omega arith)

abbrev cpmm_accounts : List AccountInfo
cpmm_accounts = map load (push_cpmm_accounts mainnet cpmm_keys (shared_accounts route_keys))

pool_found : account cpmm_accounts 6 ≡ ok (load (writable 40 false))
unfolding push_cpmm_accounts cpmm_section account
pool_found = refl

validate_section-push_cpmm_accounts_example :
    Cpmm.validate_section mainnet cpmm_accounts 3 0 ≡ ok tt
validate_section-push_cpmm_accounts_example =
    validate_section-push_cpmm_accounts mainnet cpmm_keys (shared_accounts route_keys) cpmm_accounts
      3 0 (load (writable 40 false))
      (map-load-Loaded (push_cpmm_accounts mainnet cpmm_keys (shared_accounts route_keys))) refl
      refl refl pool_found refl
