-- ===== src/Executor/PoolMeta.antt =====
-- src/executor/atomic/helpers.rs, `fetch_pumpswap_meta_and_reserves`: the metadata cache of PumpSwap
-- pools and the fresh reserves. A slice of a vault's data that is out of range panics.
use solana_atomic_arbitrage.Base.{
  ℕ, ◌||◌, List, Option, none, some, length, ltb, ◌==◌, if◌then◌else◌,
}
use solana_atomic_arbitrage.Base.Bytes.{slice, from_le_bytes}
use solana_atomic_arbitrage.Client.Constants
use solana_atomic_arbitrage.Client.Pool.{PumpSwapPoolMeta, parse_pumpswap_pool_meta, key_at}
use solana_atomic_arbitrage.PoolCache.Node.{Node}
use solana_atomic_arbitrage.Router.Types.{Pubkey}

-- The static POOL_META_CACHE, a map as a function.
abbrev pub MetaCache : Type 0
MetaCache = Pubkey → Option PumpSwapPoolMeta

unfoldable pub insert_meta : Pubkey → PumpSwapPoolMeta → MetaCache → MetaCache
insert_meta pool pool_meta cache = λ k. if k == pool then some pool_meta else cache k

-- How the fetch ends: with the metadata, the SOL and the token reserves, an error, or a panic.
pub data Fetched : Type 0 where
  fetched : PumpSwapPoolMeta → ℕ → ℕ → Fetched
  failed : Fetched
  panicked : Fetched

abbrev parse_spl_token_amount : List ℕ → ℕ
parse_spl_token_amount bytes = from_le_bytes (slice bytes 64 8)

-- The reserves by the mints of the two vaults.
unfoldable pub reserves_by_mint : PumpSwapPoolMeta → List ℕ → List ℕ → Fetched
reserves_by_mint pool_meta base_data quote_data =
    if ltb (length base_data) 72 || ltb (length quote_data) 72
    then panicked
    else if key_at base_data 0 == Constants.native_sol_mint
    then fetched pool_meta (parse_spl_token_amount base_data) (parse_spl_token_amount quote_data)
    else if key_at quote_data 0 == Constants.native_sol_mint
    then fetched pool_meta (parse_spl_token_amount quote_data) (parse_spl_token_amount base_data)
    else failed

unfoldable pub read_reserves : Node → PumpSwapPoolMeta → Fetched
read_reserves node pool_meta = elim (node.get_account pool_meta.pool_base_token_account) [
  | none ↦ failed
  | some b ↦ elim (node.get_account pool_meta.pool_quote_token_account) [
    | none ↦ failed
    | some q ↦ reserves_by_mint pool_meta b.bytes q.bytes
  ]
]

-- The metadata of a pool that the node returns.
unfoldable pub read_meta : Node → Pubkey → Option PumpSwapPoolMeta
read_meta node pool = elim (node.get_account pool) [
  | none ↦ none
  | some a ↦ parse_pumpswap_pool_meta a.bytes
]

unfoldable pub fetch_pumpswap_meta_and_reserves : Node → Pubkey → MetaCache → MetaCache × Fetched
fetch_pumpswap_meta_and_reserves node pool cache = elim (cache pool) [
  | some m ↦ (cache, read_reserves node m)
  | none ↦ elim (read_meta node pool) [
    | none ↦ (cache, failed)
    | some m ↦ (insert_meta pool m cache, read_reserves node m)
  ]
]
