-- ===== src/PoolCache/Queries.antt =====
-- src/pool_cache/mod.rs: the queries of the caches, and the addresses of pools that the log listener
-- discovers. A map is a function of the key.
use solana_atomic_arbitrage.Base.{ℕ, Bool, ◌&&◌, Option, none, some, ◌==◌, if◌then◌else◌}
use solana_atomic_arbitrage.Base.Options.{◌>>=◌}
use solana_atomic_arbitrage.PoolCache.Dlmm.{DlmmPoolReserves}
use solana_atomic_arbitrage.PoolCache.Entry.{CacheEntry, new, is_stale, cache_key}
use solana_atomic_arbitrage.Router.Types.{Pubkey}

pub record AmmV4PoolInfo : Type 0 where
  pub pool_address : Pubkey
  pub coin_mint : Pubkey
  pub pc_mint : Pubkey
  pub coin_vault : Pubkey
  pub pc_vault : Pubkey
  pub open_orders : Pubkey
  pub target_orders : Pubkey
  pub market : Pubkey
  pub market_program : Pubkey

-- A cache by mints.
abbrev pub MintCache : Type 0 → Type 0
MintCache T = Pubkey × Pubkey → Option (CacheEntry T)

module _ {T : Type 0} where
  unfoldable pub put_entry : Pubkey × Pubkey → CacheEntry T → MintCache T → MintCache T
  put_entry key entry cache = λ k. if (k.0 == key.0) && (k.1 == key.1) then some entry else cache k

  -- The value of an entry that is there and not stale.
  unfoldable pub fresh_value : MintCache T → Pubkey × Pubkey → ℕ → Option T
  fresh_value cache key now = elim (cache key) [
    | none ↦ none
    | some entry ↦ if is_stale entry now then none else some entry.value
  ]

module _ (text_lt : Pubkey → Pubkey → Bool) where
  unfoldable pub get_ammv4_pool_info :
      MintCache (Option AmmV4PoolInfo) → Pubkey → Pubkey → ℕ → Option AmmV4PoolInfo
  get_ammv4_pool_info cache mint_a mint_b now = do
    value ← fresh_value cache (cache_key text_lt mint_a mint_b) now
    value

  unfoldable pub get_dlmm_reserves :
      MintCache (Option DlmmPoolReserves) → Pubkey → Pubkey → ℕ → Option DlmmPoolReserves
  get_dlmm_reserves cache token_x token_y now = do
    value ← fresh_value cache (cache_key text_lt token_x token_y) now
    value

  -- `cache_discovered_cpmm_pool` and `cache_discovered_whirlpool_pool`, each on its own map.
  unfoldable pub cache_discovered_pool :
      Pubkey → Pubkey → Pubkey → ℕ → MintCache Pubkey → MintCache Pubkey
  cache_discovered_pool mint_a mint_b pool_addr now cache =
      put_entry (cache_key text_lt mint_a mint_b) (new now pool_addr) cache

  -- `get_discovered_cpmm_pool` and `get_discovered_whirlpool_pool`.
  unfoldable pub get_discovered_pool : MintCache Pubkey → Pubkey → Pubkey → ℕ → Option Pubkey
  get_discovered_pool cache mint_a mint_b now =
      fresh_value cache (cache_key text_lt mint_a mint_b) now
