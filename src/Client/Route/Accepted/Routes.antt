-- ===== src/Client/Route/Accepted/Routes.antt =====
-- The client's two routes, with the addresses they derive, at the router's entry point.
use solana_atomic_arbitrage.Base.{◌^◌, ◌<◌, ◌≡◌, refl, List, length}
use solana_atomic_arbitrage.Client.Constants as Sent
use solana_atomic_arbitrage.Client.Pool.{PumpSwapPoolMeta}
use solana_atomic_arbitrage.Client.Route.Accepted.{Loaded}
use solana_atomic_arbitrage.Client.Route.Accepted.Address.{WellAddressed}
use solana_atomic_arbitrage.Client.Route.Accepted.DlmmToPump as DlmmToPumpRoute
use solana_atomic_arbitrage.Client.Route.Accepted.PumpToDlmm as PumpToDlmmRoute
use solana_atomic_arbitrage.Client.Route.Layout.{
  RouteInputs, DlmmPoolReserves, route_keys_of, dlmm_keys_of, sol_is_x, build_route_pump_to_dlmm,
  build_route_dlmm_to_pump,
}
use solana_atomic_arbitrage.Router.Entry.{process_instruction}
use solana_atomic_arbitrage.Router.Instruction.{RouteArgs}
use solana_atomic_arbitrage.Router.Legacy.DlmmToPump
use solana_atomic_arbitrage.Router.Legacy.PumpToDlmm
use solana_atomic_arbitrage.Router.Legacy.Shared.{event_authority, global_config}
use solana_atomic_arbitrage.Router.Trade.{trade}
use solana_atomic_arbitrage.Router.Types.{AccountInfo, Runtime}

-- The arguments that the router reads from the client's data.
abbrev pub pump_to_dlmm_args : RouteInputs → DlmmPoolReserves → PumpSwapPoolMeta → RouteArgs
pump_to_dlmm_args inputs dlmm pool_meta =
    PumpToDlmmRoute.sent_args pool_meta dlmm.bin_array_addresses inputs.investment_lamports
      inputs.min_meme_out inputs.min_profit_lamports (sol_is_x dlmm)

abbrev pub dlmm_to_pump_args : RouteInputs → DlmmPoolReserves → PumpSwapPoolMeta → RouteArgs
dlmm_to_pump_args inputs dlmm pool_meta =
    DlmmToPumpRoute.sent_args pool_meta dlmm.bin_array_addresses inputs.investment_lamports
      inputs.min_meme_out inputs.min_profit_lamports (sol_is_x dlmm)

module _ (rt : Runtime) (inputs : RouteInputs) (dlmm : DlmmPoolReserves)
    (pool_meta : PumpSwapPoolMeta) where
  -- All addresses but two are right by themselves.
  well_addressed :
      event_authority rt ≡ Sent.pumpswap_event_authority
      → global_config rt ≡ Sent.pumpswap_global_config
      → WellAddressed rt (route_keys_of inputs) (dlmm_keys_of rt dlmm)
  well_addressed events config = record {
    sol_mint_eq = refl;
    quote_program_eq = refl;
    dlmm_program_eq = refl;
    memo_eq = refl;
    event_auth_eq = refl;
    oracle_eq = refl;
    pump_event_eq = events;
    pump_config_eq = config;
  }

  -- The PumpSwap-to-DLMM route that the client builds, loaded by the runtime, passes every check
  -- of the on-chain handler (discriminator, data, counts, account count, programs, mints, derived
  -- addresses, signer, oracle) and is traded with exactly the values sent, if the amounts fit 64
  -- bits, the investment and the least profit are positive, there is a bin array, and the client's
  -- two PumpSwap constants are the derived addresses.
  pub process_instruction-build_route_pump_to_dlmm :
      (accounts : List AccountInfo)
      → Loaded (build_route_pump_to_dlmm rt inputs dlmm pool_meta).accounts accounts
      → event_authority rt ≡ Sent.pumpswap_event_authority
      → global_config rt ≡ Sent.pumpswap_global_config
      → inputs.investment_lamports < 2 ^ 64
      → inputs.min_profit_lamports < 2 ^ 64
      → inputs.min_meme_out < 2 ^ 64
      → 0 < inputs.investment_lamports
      → 0 < inputs.min_profit_lamports
      → 0 < length dlmm.bin_array_addresses
      → process_instruction rt accounts (build_route_pump_to_dlmm rt inputs dlmm pool_meta).bytes
        ≡ trade
            (PumpToDlmm.buy_leg rt (pump_to_dlmm_args inputs dlmm pool_meta))
            (PumpToDlmm.sell_leg rt (pump_to_dlmm_args inputs dlmm pool_meta))
            inputs.min_profit_lamports
            accounts
  unfolding build_route_pump_to_dlmm
  process_instruction-build_route_pump_to_dlmm accounts loaded events config hi hp hm pi pp pb =
      PumpToDlmmRoute.process_instruction-assemble_pump_to_dlmm rt (route_keys_of inputs) pool_meta
        (dlmm_keys_of rt dlmm) dlmm.bin_array_addresses inputs.arb_program_id
        inputs.investment_lamports inputs.min_meme_out inputs.min_profit_lamports (sol_is_x dlmm)
        accounts loaded (well_addressed events config) hi hp hm pi pp pb

  -- The DLMM-to-PumpSwap route that the client builds, loaded by the runtime, passes every check
  -- of the on-chain handler and is traded with exactly the values sent, if the amounts fit 64
  -- bits, the investment and the least profit are positive, there is a bin array, and the client's
  -- two PumpSwap constants are the derived addresses.
  pub process_instruction-build_route_dlmm_to_pump :
      (accounts : List AccountInfo)
      → Loaded (build_route_dlmm_to_pump rt inputs dlmm pool_meta).accounts accounts
      → event_authority rt ≡ Sent.pumpswap_event_authority
      → global_config rt ≡ Sent.pumpswap_global_config
      → inputs.investment_lamports < 2 ^ 64
      → inputs.min_profit_lamports < 2 ^ 64
      → inputs.min_meme_out < 2 ^ 64
      → 0 < inputs.investment_lamports
      → 0 < inputs.min_profit_lamports
      → 0 < length dlmm.bin_array_addresses
      → process_instruction rt accounts (build_route_dlmm_to_pump rt inputs dlmm pool_meta).bytes
        ≡ trade
            (DlmmToPump.buy_leg rt (dlmm_to_pump_args inputs dlmm pool_meta))
            (DlmmToPump.sell_leg rt (dlmm_to_pump_args inputs dlmm pool_meta))
            inputs.min_profit_lamports
            accounts
  unfolding build_route_dlmm_to_pump
  process_instruction-build_route_dlmm_to_pump accounts loaded events config hi hp hm pi pp pb =
      DlmmToPumpRoute.process_instruction-assemble_dlmm_to_pump rt (route_keys_of inputs) pool_meta
        (dlmm_keys_of rt dlmm) dlmm.bin_array_addresses inputs.arb_program_id
        inputs.investment_lamports inputs.min_meme_out inputs.min_profit_lamports (sol_is_x dlmm)
        accounts loaded (well_addressed events config) hi hp hm pi pp pb
