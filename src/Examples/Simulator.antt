-- ===== src/Examples/Simulator.antt =====
-- The client's instruction builders, estimates and diagnostic at concrete inputs.
use solana_atomic_arbitrage.Base.{
  inl, ◌*◌, ℕ, ◌≤◌, ◌≡◌, ◌≢◌, ◌⊎◌, refl, ap, true, false, List, [], ◌∷◌, ◌++◌, All, Option, some,
  none, map, arith, if◌then◌else◌, ◌==◌, replicate, get_elem?,
}
use solana_atomic_arbitrage.Base.Int.{ℤ, pos, negsuc}
use solana_atomic_arbitrage.Base.Bytes.{to_be_bytes}
use solana_atomic_arbitrage.Base.Options.{none_if, ◌>>=◌}
use solana_atomic_arbitrage.Client.Pool.{from_be_bytes}
use solana_atomic_arbitrage.Client.Route.SectionData.{
  WhirlpoolSectionData, whirlpool_section_data, derive_whirlpool_tick_arrays, tick_array_pda,
}
use solana_atomic_arbitrage.Client.Route.SectionData.TickArrays.{
  no_tick_arrays, by_address-no_tick_arrays, Starts, first_tick_array-Starts,
}
use solana_atomic_arbitrage.PoolCache.Node.{Node, vault_balances}
use solana_atomic_arbitrage.PoolCache.Whirlpool.{fetch_whirlpool_by_address, reserves_of}
use solana_atomic_arbitrage.Client.Constants as Sent
use solana_atomic_arbitrage.Client.Route.Encode.{build_ix_data}
use solana_atomic_arbitrage.Client.Route.Sections.{
  buy_fixed, buy_remaining, sell_fixed, sell_remaining, pumpswap_buy_remaining_count,
  pumpswap_sell_remaining_count,
}
use solana_atomic_arbitrage.Client.Simulator.Diagnostic.{zero_min_out_onchain}
use solana_atomic_arbitrage.Client.Simulator.Diagnostic.Effect.{legacy-zero_min_out_onchain}
use solana_atomic_arbitrage.Client.Simulator.Estimate.{walk}
use solana_atomic_arbitrage.Client.Simulator.Estimate.Bounds.{Fits64, walk-le-walk}
use solana_atomic_arbitrage.Client.Simulator.Loading.{meta_of}
use solana_atomic_arbitrage.Client.Simulator.PumpSwap.{
  build_pumpswap_buy_ix, build_pumpswap_sell_ix,
}
use solana_atomic_arbitrage.Client.Simulator.PumpSwap.Routed.{
  swap_keys, build_buy-eq-build_pumpswap_buy_ix, build_sell-eq-build_pumpswap_sell_ix,
}
use solana_atomic_arbitrage.Client.Simulator.Token.{ProgramCache, detect_token_program}
use solana_atomic_arbitrage.Client.Simulator.Token.Owner.{Right, detect_token_program-All}
use solana_atomic_arbitrage.Examples.Accounts.{
  mainnet, route_keys, pool_meta, load, generic_accounts, wallet,
}
use solana_atomic_arbitrage.PoolCache.Dlmm.{DlmmBin, DlmmPoolReserves}
use solana_atomic_arbitrage.PoolCache.Dlmm.Agreement.{oriented}
use solana_atomic_arbitrage.Router.Cpi.PumpSwap.{build_buy, build_sell}
use solana_atomic_arbitrage.Router.Legacy.PumpToDlmm
use solana_atomic_arbitrage.Router.Legacy.DlmmToPump
use solana_atomic_arbitrage.Router.Pricing.Dlmm as Pricing
use solana_atomic_arbitrage.Router.Types.{as_ref, Pubkey, AccountInfo, AccountMeta, ok}

map-meta_of-load : (ms : List AccountMeta) → map meta_of (map load ms) ≡ ms
map-meta_of-load [] = refl
map-meta_of-load (m ∷ ms) = ap (λ rest. m ∷ rest) (map-meta_of-load ms)

-- The sections behind the user's account.
abbrev buy_section : List AccountInfo
buy_section =
    map load (buy_fixed mainnet route_keys pool_meta ++ buy_remaining mainnet route_keys pool_meta)

abbrev sell_section : List AccountInfo
sell_section =
    map load
      (sell_fixed mainnet route_keys pool_meta ++ sell_remaining mainnet route_keys pool_meta)

abbrev with_wallet : List AccountInfo → List AccountInfo
with_wallet accounts = wallet 1000 ∷ accounts ++ wallet 5 ∷ []

build_buy-eq-build_pumpswap_buy_ix_example :
    build_buy (with_wallet buy_section) 1 (pumpswap_buy_remaining_count pool_meta) 1000 10 true none
    ≡ ok (build_pumpswap_buy_ix mainnet (swap_keys route_keys pool_meta) 1000 10 true)
build_buy-eq-build_pumpswap_buy_ix_example =
    build_buy-eq-build_pumpswap_buy_ix mainnet route_keys pool_meta (with_wallet buy_section)
      buy_section (wallet 5 ∷ []) 1 1000 10 refl true
      (map-meta_of-load
        (buy_fixed mainnet route_keys pool_meta ++ buy_remaining mainnet route_keys pool_meta))

build_sell-eq-build_pumpswap_sell_ix_example :
    build_sell (with_wallet sell_section) 1 (pumpswap_sell_remaining_count pool_meta) 1000 10 none
    ≡ ok (build_pumpswap_sell_ix mainnet (swap_keys route_keys pool_meta) 1000 10)
build_sell-eq-build_pumpswap_sell_ix_example =
    build_sell-eq-build_pumpswap_sell_ix mainnet route_keys pool_meta (with_wallet sell_section)
      sell_section (wallet 5 ∷ []) 1 1000 10 refl
      (map-meta_of-load
        (sell_fixed mainnet route_keys pool_meta ++ sell_remaining mainnet route_keys pool_meta))

-- Mint 50 belongs to Token-2022 and is cached; mint 51 belongs to the token program.
abbrev owner_of : Pubkey → Option Pubkey
owner_of mint =
    if mint == 50
    then some Sent.token22_program
    else if mint == 51
    then some Sent.token_program
    else none

abbrev known_programs : ProgramCache
known_programs = (50, Sent.token22_program) ∷ []

known_programs-Right : All (Right owner_of) known_programs
known_programs-Right = (inl (refl, refl), tt)

detect_token_program-All_example :
    All (Right owner_of) (detect_token_program owner_of 51 known_programs).0
    × (((detect_token_program owner_of 51 known_programs).1 ≡ none)
          × (All (λ entry. entry.0 ≢ 51) known_programs)
          × (owner_of 51 ≡ none)
        ⊎ ((tp : Pubkey) × ((detect_token_program owner_of 51 known_programs).1 ≡ some tp)
            × Right owner_of (51, tp)))
detect_token_program-All_example =
    detect_token_program-All owner_of 51 known_programs known_programs-Right

abbrev zeroed : List ℕ → List ℕ
zeroed disc = (zero_min_out_onchain (build_ix_data disc 100 50 400 false true 4 1)).0

legacy-zero_min_out_onchain_example :
    (PumpToDlmm.handle mainnet (generic_accounts 1000 0) (zeroed Sent.route_pump_to_dlmm_disc)
      ≢ ok [])
    × (DlmmToPump.handle mainnet (generic_accounts 1000 0) (zeroed Sent.route_dlmm_to_pump_disc)
        ≢ ok [])
legacy-zero_min_out_onchain_example =
    legacy-zero_min_out_onchain mainnet (generic_accounts 1000 0) [] 100 50 400 4 1 false true
      (omega arith) (omega arith) (omega arith) (omega arith)

abbrev pool_bins : List DlmmBin
pool_bins =
    record { bin_id = pos 8; amount_x = 100; amount_y = 300; reserve_x = 0; reserve_y = 0 }
    ∷ record { bin_id = pos 7; amount_x = 200; amount_y = 500; reserve_x = 0; reserve_y = 0 }
    ∷ []

pool_bins-Fits64 : All Fits64 pool_bins
pool_bins-Fits64 = (
  record { x_lt = omega arith; y_lt = omega arith },
  (record { x_lt = omega arith; y_lt = omega arith }, tt),
)

walk-le-walk_example :
    (out : ℕ) × (Pricing.walk 150 0 (oriented true pool_bins) ≡ ok out)
    × (out
        ≤ (walk true 150
            (record { total_out = 0; bins_consumed = 0; consumed_bins = [] })
            pool_bins).total_out)
walk-le-walk_example = walk-le-walk true 150 pool_bins pool_bins-Fits64 (omega arith)

-- A Whirlpool account at key 60 whose first mint is SOL, with zeros elsewhere.
abbrev whirlpool_bytes : List ℕ
whirlpool_bytes = replicate 101 0 ++ (as_ref Sent.native_sol_mint ++ replicate 120 0)

abbrev whirlpool_node : Node
whirlpool_node = record {
  get_account = λ key.
      if key == 60
      then some (record { owner = Sent.whirlpool_program; bytes = whirlpool_bytes })
      else none;
  get_multiple_accounts = λ keys. none;
}

abbrev whirlpool_reserves : DlmmPoolReserves
whirlpool_reserves = reserves_of 60 0 whirlpool_bytes (0, 0)

whirlpool_read : fetch_whirlpool_by_address whirlpool_node 60 ≡ some whirlpool_reserves
unfolding fetch_whirlpool_by_address reserves_of as_ref to_be_bytes from_be_bytes ◌>>=◌ none_if
    vault_balances
whirlpool_read = refl

abbrev whirlpool_section_at_60 : WhirlpoolSectionData
whirlpool_section_at_60 = record {
  pool = 60;
  vault_a = 0;
  vault_b = 0;
  tick_arrays = no_tick_arrays;
  sol_is_x = true;
}

whirlpool_resolved :
    whirlpool_section_data mainnet whirlpool_reserves ≡ some whirlpool_section_at_60
unfolding whirlpool_section_data reserves_of as_ref to_be_bytes from_be_bytes ◌>>=◌ none_if
    derive_whirlpool_tick_arrays
whirlpool_resolved = refl

by_address-no_tick_arrays_example : whirlpool_section_at_60.tick_arrays ≡ no_tick_arrays
by_address-no_tick_arrays_example =
    by_address-no_tick_arrays mainnet whirlpool_node 60 whirlpool_reserves whirlpool_section_at_60
      whirlpool_read whirlpool_resolved

-- Tick -20000 of a pool with spacing 64.
first_tick_array-Starts_example :
    (start : ℤ) × Starts (negsuc 19999) (64 * 88) start
    × (get_elem? (derive_whirlpool_tick_arrays mainnet 60 (negsuc 19999) 64) 0
        ≡ some (tick_array_pda mainnet 60 start))
first_tick_array-Starts_example =
    first_tick_array-Starts mainnet 60 (negsuc 19999) 64 (omega arith) (omega arith) (omega arith)
