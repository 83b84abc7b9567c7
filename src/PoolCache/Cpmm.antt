-- ===== src/PoolCache/Cpmm.antt =====
-- src/pool_cache/cpmm.rs: the CPMM pool cache. The lock of the cache is taken for the read and again
-- for the write; liquidity in SOL, a floating-point number, and the database are left out, and keys
-- are taken as parsed. `text_lt` compares two keys as texts; `node` is the node as the calls of one
-- operation see it.
pub mod Served
pub mod Vaults
use solana_atomic_arbitrage.Base.{
  ℕ, suc, zero, ◌+◌, ◌<◌, Bool, true, false, ◌&&◌, ◌||◌, not, List, [], ◌∷◌, ◌++◌, map, Option,
  none, some, length, get_elem?, ltb, ◌==◌, ◌/=◌, if◌then◌else◌,
}
use solana_atomic_arbitrage.Base.Options.{◌>>=◌, ◌>>◌, none_if}
use solana_atomic_arbitrage.Client.Constants
use solana_atomic_arbitrage.Client.Pool.{key_at}
use solana_atomic_arbitrage.Client.Simulator.Raydium.{PoolStateData}
use solana_atomic_arbitrage.PoolCache.Entry.{CacheEntry, new, new_persisted, is_stale, cache_key}
use solana_atomic_arbitrage.PoolCache.Node.{Account, Node, vault_balances}
use solana_atomic_arbitrage.Router.Types.{Pubkey, Runtime, as_ref}

-- "t0:t1", or "addr:pool".
pub data CpmmKey : Type 0 where
  by_mints : Pubkey × Pubkey → CpmmKey
  by_address : Pubkey → CpmmKey

unfoldable pub same_key : CpmmKey → CpmmKey → Bool
same_key (by_mints (a, b)) (by_mints (c, d)) = (a == c) && (b == d)
same_key (by_address a) (by_address b) = a == b
same_key (by_mints p) (by_address b) = false
same_key (by_address a) (by_mints q) = false

-- CPMM_CACHE: the map as a function of the key.
abbrev pub CpmmCache : Type 0
CpmmCache = CpmmKey → Option (CacheEntry (Option PoolStateData))

unfoldable pub insert_entry : CpmmKey → CacheEntry (Option PoolStateData) → CpmmCache → CpmmCache
insert_entry key entry cache = λ k. if same_key k key then some entry else cache k

-- "pool", "pool_vault" and "amm_config"
abbrev pool_seed : List ℕ
pool_seed = 112 ∷ 111 ∷ 111 ∷ 108 ∷ []

abbrev pub pool_vault_seed : List ℕ
pool_vault_seed = 112 ∷ 111 ∷ 111 ∷ 108 ∷ 95 ∷ 118 ∷ 97 ∷ 117 ∷ 108 ∷ 116 ∷ []

abbrev amm_config_seed : List ℕ
amm_config_seed = 97 ∷ 109 ∷ 109 ∷ 95 ∷ 99 ∷ 111 ∷ 110 ∷ 102 ∷ 105 ∷ 103 ∷ []

abbrev pub vault_pda : Runtime → Pubkey → Pubkey → Pubkey
vault_pda rt pool mint =
    rt.find_program_address (pool_vault_seed ∷ as_ref pool ∷ as_ref mint ∷ [])
      Constants.cpmm_program

abbrev pool_pda : Runtime → Pubkey → Pubkey → Pubkey → Pubkey
pool_pda rt config t0 t1 =
    rt.find_program_address (pool_seed ∷ as_ref config ∷ as_ref t0 ∷ as_ref t1 ∷ [])
      Constants.cpmm_program

abbrev config_pda : Runtime → ℕ → Pubkey
config_pda rt idx =
    rt.find_program_address (amm_config_seed ∷ (0 ∷ idx ∷ []) ∷ []) Constants.cpmm_program

-- The candidates of the config indices 1 to 4: config and pool.
unfoldable pub config_candidates : Runtime → Pubkey → Pubkey → List (Pubkey × Pubkey)
config_candidates rt t0 t1 =
    map (λ idx. (config_pda rt idx, pool_pda rt (config_pda rt idx) t0 t1)) (1 ∷ 2 ∷ 3 ∷ 4 ∷ [])

-- The first candidate that has an account.
unfoldable pub first_found :
    List (Pubkey × Pubkey) → List (Option Account) → Option (Pubkey × Pubkey)
first_found (p ∷ ps) (some a ∷ as') = some p
first_found (p ∷ ps) (none ∷ as') = first_found ps as'
first_found _ _ = none

abbrev pool_of : Pubkey × Pubkey → Pubkey
pool_of p = p.1

-- The config and the pool account of two mints.
unfoldable pub find_pool : Runtime → Node → Pubkey → Pubkey → Option (Pubkey × Pubkey)
find_pool rt node t0 t1 = elim (node.get_account (pool_pda rt Constants.cpmm_amm_config t0 t1)) [
  | some a ↦ some (Constants.cpmm_amm_config, pool_pda rt Constants.cpmm_amm_config t0 t1)
  | none ↦ search_configs
]
  where
    search_configs : Option (Pubkey × Pubkey)
    search_configs = do
      accounts ← node.get_multiple_accounts (map pool_of (config_candidates rt t0 t1))
      first_found (config_candidates rt t0 t1) accounts

-- The test of the mints that were read against those that were asked for.
unfoldable pub mints_differ : Pubkey → Pubkey → Pubkey → Pubkey → Bool
mints_differ m0 m1 t0 t1 = ((m0 /= t0) || (m1 /= t1)) && ((m0 /= t1) || (m1 /= t0))

unfoldable pub read_pool : Runtime → Node → Pubkey → Pubkey → Option PoolStateData
read_pool rt node t0 t1 = do
  found ← find_pool rt node t0 t1
  account ← node.get_account found.1
  none_if (ltb (length account.bytes) 232)
  none_if (mints_differ (key_at account.bytes 168) (key_at account.bytes 200) t0 t1)
  let amounts = vault_balances node (vault_pda rt found.1 t0) (vault_pda rt found.1 t1)
  some (record {
    pool_pubkey = found.1;
    config_pubkey = found.0;
    token_0_mint = key_at account.bytes 168;
    token_1_mint = key_at account.bytes 200;
    token_0_vault = vault_pda rt found.1 t0;
    token_1_vault = vault_pda rt found.1 t1;
    token_0_vault_raw = amounts.0;
    token_1_vault_raw = amounts.1;
  })

-- `fetch_cpmm_pool`: the mints are first put in the order of their texts.
unfoldable pub fetch_cpmm_pool :
    (Pubkey → Pubkey → Bool) → Runtime → Node → Pubkey → Pubkey → Option PoolStateData
fetch_cpmm_pool text_lt rt node t0 t1 =
    let (token_0, token_1) = cache_key text_lt t0 t1 in read_pool rt node token_0 token_1

unfoldable pub read_pool_state_at : Runtime → Node → Pubkey → Option PoolStateData
read_pool_state_at rt node pool = do
  account ← node.get_account pool
  none_if (ltb (length account.bytes) 232)
  let m0 = key_at account.bytes 168
  let m1 = key_at account.bytes 200
  let amounts = vault_balances node (vault_pda rt pool m0) (vault_pda rt pool m1)
  some (record {
    pool_pubkey = pool;
    config_pubkey = key_at account.bytes 8;
    token_0_mint = m0;
    token_1_mint = m1;
    token_0_vault = vault_pda rt pool m0;
    token_1_vault = vault_pda rt pool m1;
    token_0_vault_raw = amounts.0;
    token_1_vault_raw = amounts.1;
  })

-- An entry that is there and not stale: what a read is served from.
unfoldable pub fresh_entry : CpmmCache → CpmmKey → ℕ → Option (CacheEntry (Option PoolStateData))
fresh_entry cache key now = elim (cache key) [
  | none ↦ none
  | some entry ↦ if is_stale entry now then none else some entry
]

module _ (text_lt : Pubkey → Pubkey → Bool) (rt : Runtime) (node : Node) where
  -- `fetch_cpmm_now`, with the pool state in place of its liquidity: `now` is the instant of the
  -- look-up in `cache`, `stamp` that of the write to `locked`.
  unfoldable pub fetch_cpmm_now :
      Pubkey → Pubkey → ℕ → ℕ → CpmmCache → CpmmCache → CpmmCache × Option PoolStateData
  fetch_cpmm_now t0 t1 now stamp cache locked =
      let key = by_mints (cache_key text_lt t0 t1) in
      let state = fetch_cpmm_pool text_lt rt node t0 t1 in
      elim (fresh_entry cache key now) [
        | some entry ↦ (locked, entry.value)
        | none ↦ (insert_entry key (new stamp state) locked, state)
      ]

  -- Whether the entry by mints is missing or empty.
  abbrev should_insert : CpmmCache → CpmmKey → Bool
  should_insert cache key = elim (cache key) [
    | none ↦ true
    | some entry ↦ elim entry.value [ none ↦ true | some s ↦ false ]
  ]

  -- The writes of `fetch_cpmm_by_address`: each entry reads the clock for itself.
  unfoldable pub store_by_address : Pubkey → ℕ → ℕ → Option PoolStateData → CpmmCache → CpmmCache
  store_by_address pool stamp stamp_by_mints none cache =
      insert_entry (by_address pool) (new stamp none) cache
  store_by_address pool stamp stamp_by_mints (some s) cache =
      let cache' = insert_entry (by_address pool) (new stamp (some s)) cache in
      let key = by_mints (cache_key text_lt s.token_0_mint s.token_1_mint) in
      if should_insert cache' key
      then insert_entry key (new stamp_by_mints (some s)) cache'
      else cache'

  -- `now` is the instant of the look-up in `cache`; the calls of the node and the wait for the lock
  -- come between it and the two stamps, and `locked` is the cache that the write finds.
  unfoldable pub fetch_cpmm_by_address :
      Pubkey → ℕ → ℕ → ℕ → CpmmCache → CpmmCache → CpmmCache × Option PoolStateData
  fetch_cpmm_by_address pool now stamp stamp_by_mints cache locked =
      let state = read_pool_state_at rt node pool in
      elim (fresh_entry cache (by_address pool) now) [
        | some entry ↦ (locked, entry.value)
        | none ↦ (store_by_address pool stamp stamp_by_mints state locked, state)
      ]

  -- src/pool_cache/mod.rs, `get_pool_state`.
  unfoldable pub get_pool_state : CpmmCache → Pubkey → Pubkey → ℕ → Option PoolStateData
  get_pool_state cache t0 t1 now = do
    entry ← fresh_entry cache (by_mints (cache_key text_lt t0 t1)) now
    entry.value

  -- The loop of `load_cpmm_pools` over the rows (mint a, mint b, pool, config); a vault that is not
  -- known yet is the empty text.
  unfoldable pub load_cpmm_pools :
      Pubkey → ℕ → List (Pubkey × Pubkey × Pubkey × Pubkey) → CpmmCache → CpmmCache
  load_cpmm_pools no_key now [] cache = cache
  load_cpmm_pools no_key now ((mint_a, mint_b, pool, config) ∷ rows) cache =
      let key = by_mints (cache_key text_lt mint_a mint_b) in
      let state : PoolStateData = record {
        pool_pubkey = pool;
        config_pubkey = config;
        token_0_mint = mint_a;
        token_1_mint = mint_b;
        token_0_vault = no_key;
        token_1_vault = no_key;
        token_0_vault_raw = 0;
        token_1_vault_raw = 0;
      } in
      let kept : CpmmCache = elim (cache key) [
        | some entry ↦ cache
        | none ↦ insert_entry key (new_persisted now (some state)) cache
      ] in
      load_cpmm_pools no_key now rows kept
