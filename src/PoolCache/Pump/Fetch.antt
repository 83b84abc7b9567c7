-- ===== src/PoolCache/Pump/Fetch.antt =====
-- src/pool_cache/bonding_curve/mod.rs, `fetch_bonding_curve`: its three paths and its cache.
use solana_atomic_arbitrage.Base.{
  ℕ, Bool, true, false, ◌&&◌, Option, none, some, ltb, if◌then◌else◌,
}
use solana_atomic_arbitrage.Base.Options.{◌>>=◌}
use solana_atomic_arbitrage.PoolCache.Entry.{CacheEntry, new, new_negative, age_secs}
use solana_atomic_arbitrage.PoolCache.Grpc.{GeyserPoolCache}
use solana_atomic_arbitrage.PoolCache.Node.{Node}
use solana_atomic_arbitrage.PoolCache.Pump.{
  BondingCurveState, AddrCache, CurveCache, insert_addr, insert_curve, read_pumpswap_pool,
  read_bonding_curve_at, bonding_curve_pda, pumpfun_reserve_ttl_secs,
}
use solana_atomic_arbitrage.Router.Types.{Pubkey, Runtime}

-- The answer of the HTTP service, with parsed addresses.
pub record CoinV2Meta : Type 0 where
  pub bonding_curve : Pubkey
  pub pump_swap_pool : Option Pubkey
  pub complete : Bool

-- An entry of less than ten seconds.
unfoldable pub young_entry :
    CurveCache → Pubkey → ℕ → Option (CacheEntry (Option BondingCurveState))
young_entry curves mint now = elim (curves mint) [
  | none ↦ none
  | some entry ↦ if ltb (age_secs entry now) pumpfun_reserve_ttl_secs then some entry else none
]

-- A curve that still has both reserves.
abbrev if_undrained : Option BondingCurveState → Option BondingCurveState
if_undrained none = none
if_undrained (some s) =
    if ltb 0 s.virtual_sol_reserves && ltb 0 s.virtual_token_reserves then some s else none

abbrev is_some : Option Pubkey → Bool
is_some none = false
is_some (some key) = true

module _ (rt : Runtime) (c : GeyserPoolCache) (node : Node) (mint : Pubkey) where
  -- Path 1: the pool of a graduated token.
  unfoldable pub graduated_state : CoinV2Meta → Option BondingCurveState
  graduated_state coin = do
    pool ← coin.pump_swap_pool
    if coin.complete then read_pumpswap_pool c node pool mint else none

  -- Paths 1 and 2, in this order.
  unfoldable pub api_state : CoinV2Meta → Option BondingCurveState
  api_state coin = elim (graduated_state coin) [
    | some s ↦ some s
    | none ↦ if_undrained (read_bonding_curve_at node coin.bonding_curve mint)
  ]

  -- Path 3: the curve at its derived address.
  unfoldable pub fallback_state : Option BondingCurveState
  fallback_state = if_undrained (read_bonding_curve_at node (bonding_curve_pda rt mint) mint)

  -- The state that is found and cached, or nothing with whether the miss is cached.
  unfoldable pub fetch_uncached : Option CoinV2Meta → Option BondingCurveState × Bool
  fetch_uncached none = (fallback_state, true)
  fetch_uncached (some coin) = elim (api_state coin) [
    | some s ↦ (some s, true)
    | none ↦
        if coin.complete && is_some coin.pump_swap_pool
        then (none, false)
        else (fallback_state, true)
  ]

  -- The writes to the two caches: the pool's address, and the state or the miss.
  unfoldable pub store_addr : Option CoinV2Meta → AddrCache → AddrCache
  store_addr none addrs = addrs
  store_addr (some coin) addrs = elim coin.pump_swap_pool [
    | none ↦ addrs
    | some pool ↦ insert_addr mint pool addrs
  ]

  unfoldable pub store_curve : ℕ → Option BondingCurveState × Bool → CurveCache → CurveCache
  store_curve later (some s, cached) curves = insert_curve mint (new later (some s)) curves
  store_curve later (none, true) curves = insert_curve mint (new_negative later none) curves
  store_curve later (none, false) curves = curves

  unfoldable pub fetch_bonding_curve :
      Option CoinV2Meta
      → ℕ
      → ℕ
      → CurveCache
      → AddrCache
      → CurveCache × AddrCache × Option BondingCurveState
  fetch_bonding_curve coin now later curves addrs = elim (young_entry curves mint now) [
    | some entry ↦ (curves, addrs, entry.value)
    | none ↦ (
      store_curve later (fetch_uncached coin) curves,
      store_addr coin addrs,
      (fetch_uncached coin).0,
    )
  ]
