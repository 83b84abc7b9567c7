-- ===== src/PoolCache/Whirlpool.antt =====
-- src/pool_cache/whirlpool.rs: the reads of Whirlpool pools and their cache. As in the CPMM cache,
-- liquidity in SOL and the database are left out, keys are taken as parsed, and `text_lt` compares
-- two keys as texts.
use solana_atomic_arbitrage.Base.{
  ℕ, ◌%◌, ◌^◌, Bool, ◌&&◌, List, [], ◌∷◌, map, Option, none, some, length, leb, ltb, ◌==◌,
  if◌then◌else◌,
}
use solana_atomic_arbitrage.Base.Bytes.{slice, from_le_bytes, to_le_bytes}
use solana_atomic_arbitrage.Base.Int.{pos}
use solana_atomic_arbitrage.Base.Options.{◌>>=◌, ◌>>◌, none_if}
use solana_atomic_arbitrage.Client.Constants
use solana_atomic_arbitrage.Client.Pool.{key_at}
use solana_atomic_arbitrage.PoolCache.Dlmm.{DlmmPoolReserves, i32_at}
use solana_atomic_arbitrage.PoolCache.Entry.{CacheEntry, new, new_persisted, is_stale, cache_key}
use solana_atomic_arbitrage.PoolCache.Node.{Account, Node, vault_balances}
use solana_atomic_arbitrage.Router.Types.{Pubkey, Runtime, as_ref}

abbrev tick_spacings : List ℕ
tick_spacings = 64 ∷ 128 ∷ 1 ∷ 8 ∷ 256 ∷ 32 ∷ []

abbrev pub token_mint_a_off : ℕ
token_mint_a_off = 101

abbrev pub token_vault_a_off : ℕ
token_vault_a_off = 133

abbrev pub token_mint_b_off : ℕ
token_mint_b_off = 181

abbrev pub token_vault_b_off : ℕ
token_vault_b_off = 213

abbrev pub min_data_len : ℕ
min_data_len = 245

abbrev pub sqrt_price_off : ℕ
sqrt_price_off = 65

abbrev pub tick_current_index_off : ℕ
tick_current_index_off = 81

abbrev pub fee_rate_off : ℕ
fee_rate_off = 45

-- "whirlpool"
abbrev whirlpool_seed : List ℕ
whirlpool_seed = 119 ∷ 104 ∷ 105 ∷ 114 ∷ 108 ∷ 112 ∷ 111 ∷ 111 ∷ 108 ∷ []

-- The pool address of each tick spacing.
unfoldable pub candidates : Runtime → Pubkey → Pubkey → List (Pubkey × ℕ)
candidates rt mint_a mint_b =
    map
      (λ ts. (
        rt.find_program_address
            (whirlpool_seed
              ∷ as_ref Constants.whirlpool_config
              ∷ as_ref mint_a
              ∷ as_ref mint_b
              ∷ to_le_bytes 2 ts
              ∷ [])
            Constants.whirlpool_program,
        ts,
      ))
      tick_spacings

-- The first candidate with a long enough account of the Whirlpool program, and that account's data.
unfoldable pub first_pool :
    List (Pubkey × ℕ) → List (Option Account) → Option ((Pubkey × ℕ) × List ℕ)
first_pool (p ∷ ps) (some a ∷ as') =
    let rest = first_pool ps as' in
    if (a.owner == Constants.whirlpool_program) && leb min_data_len (length a.bytes)
    then some (p, a.bytes)
    else rest
first_pool (p ∷ ps) (none ∷ as') = first_pool ps as'
first_pool _ _ = none

-- The record that both reads build from the pool's data.
unfoldable pub reserves_of : Pubkey → ℕ → List ℕ → ℕ × ℕ → DlmmPoolReserves
reserves_of pool tick_spacing bytes (reserve_x, reserve_y) = record {
  lb_pair = pool;
  token_x_mint = key_at bytes token_mint_a_off;
  token_y_mint = key_at bytes token_mint_b_off;
  reserve_x = reserve_x;
  reserve_y = reserve_y;
  reserve_x_address = key_at bytes token_vault_a_off;
  reserve_y_address = key_at bytes token_vault_b_off;
  bin_array_addresses = [];
  bins = [];
  bin_step = tick_spacing;
  base_factor = 0;
  active_id = pos 0;
  bin_array_bitmap_extension = none;
  sqrt_price = from_le_bytes (slice bytes sqrt_price_off 16);
  tick_current_index = i32_at bytes tick_current_index_off;
  fee_rate = from_le_bytes (slice bytes fee_rate_off 2);
}

abbrev pool_balances : Node → List ℕ → ℕ × ℕ
pool_balances node bytes =
    vault_balances node (key_at bytes token_vault_a_off) (key_at bytes token_vault_b_off)

-- `fetch_whirlpool_pool` for mints in the order of their texts.
unfoldable pub read_whirlpool : Runtime → Node → Pubkey → Pubkey → Option DlmmPoolReserves
read_whirlpool rt node mint_a mint_b = do
  results ← node.get_multiple_accounts (map (λ (c : Pubkey × ℕ). c.0) (candidates rt mint_a mint_b))
  found ← first_pool (candidates rt mint_a mint_b) results
  let (amt_a, amt_b) = pool_balances node found.1
  some (
      reserves_of found.0.0 found.0.1 found.1
        (if key_at found.1 token_mint_a_off == mint_a then (amt_a, amt_b) else (amt_b, amt_a)))

unfoldable pub fetch_whirlpool_pool :
    (Pubkey → Pubkey → Bool) → Runtime → Node → Pubkey → Pubkey → Option DlmmPoolReserves
fetch_whirlpool_pool text_lt rt node t0 t1 =
    let (mint_a, mint_b) = cache_key text_lt t0 t1 in read_whirlpool rt node mint_a mint_b

unfoldable pub fetch_whirlpool_by_address : Node → Pubkey → Option DlmmPoolReserves
fetch_whirlpool_by_address node pool = do
  account ← node.get_account pool
  none_if (ltb (length account.bytes) min_data_len)
  some (reserves_of pool 0 account.bytes (pool_balances node account.bytes))

-- WHIRLPOOL_CACHE: the map as a function of the key.
abbrev pub WhirlpoolCache : Type 0
WhirlpoolCache = Pubkey × Pubkey → Option (CacheEntry (Option DlmmPoolReserves))

unfoldable pub insert_entry :
    Pubkey × Pubkey → CacheEntry (Option DlmmPoolReserves) → WhirlpoolCache → WhirlpoolCache
insert_entry (a, b) entry cache = λ k. if (k.0 == a) && (k.1 == b) then some entry else cache k

unfoldable pub fresh_entry :
    WhirlpoolCache → Pubkey × Pubkey → ℕ → Option (CacheEntry (Option DlmmPoolReserves))
fresh_entry cache key now = elim (cache key) [
  | none ↦ none
  | some entry ↦ if is_stale entry now then none else some entry
]

module _ (text_lt : Pubkey → Pubkey → Bool) where
  -- `now` is the instant of the look-up in `cache`, `stamp` that of the write to `locked`.
  -- `fetch_whirlpool_now` is the same up to its result, the liquidity of the reserves.
  unfoldable pub fetch_whirlpool_by_mints :
      Runtime
      → Node
      → Pubkey
      → Pubkey
      → ℕ
      → ℕ
      → WhirlpoolCache
      → WhirlpoolCache
      → WhirlpoolCache × Option DlmmPoolReserves
  fetch_whirlpool_by_mints rt node mint_a mint_b now stamp cache locked =
      let key = cache_key text_lt mint_a mint_b in
      let state = fetch_whirlpool_pool text_lt rt node mint_a mint_b in
      elim (fresh_entry cache key now) [
        | some entry ↦ (locked, entry.value)
        | none ↦ (insert_entry key (new stamp state) locked, state)
      ]

  -- src/pool_cache/mod.rs, `get_whirlpool_reserves`.
  unfoldable pub get_whirlpool_reserves :
      WhirlpoolCache → Pubkey → Pubkey → ℕ → Option DlmmPoolReserves
  get_whirlpool_reserves cache token_x token_y now = do
    entry ← fresh_entry cache (cache_key text_lt token_x token_y) now
    entry.value

  -- The loop of `load_whirlpool_pools` over the rows (mint a, mint b, pool, tick spacing); an address
  -- that is not known yet is the empty text.
  unfoldable pub load_whirlpool_pools :
      Pubkey → ℕ → List (Pubkey × Pubkey × Pubkey × ℕ) → WhirlpoolCache → WhirlpoolCache
  load_whirlpool_pools no_key now [] cache = cache
  load_whirlpool_pools no_key now ((mint_a, mint_b, pool, tick_spacing) ∷ rows) cache =
      let key = cache_key text_lt mint_a mint_b in
      let state : DlmmPoolReserves = record {
        lb_pair = pool;
        token_x_mint = mint_a;
        token_y_mint = mint_b;
        reserve_x = 0;
        reserve_y = 0;
        reserve_x_address = no_key;
        reserve_y_address = no_key;
        bin_array_addresses = [];
        bins = [];
        bin_step = tick_spacing % 2 ^ 16;
        base_factor = 0;
        active_id = pos 0;
        bin_array_bitmap_extension = none;
        sqrt_price = 0;
        tick_current_index = pos 0;
        fee_rate = 0;
      } in
      let kept : WhirlpoolCache = elim (cache key) [
        | some entry ↦ cache
        | none ↦ insert_entry key (new_persisted now (some state)) cache
      ] in
      load_whirlpool_pools no_key now rows kept
