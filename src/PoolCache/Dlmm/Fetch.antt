-- ===== src/PoolCache/Dlmm/Fetch.antt =====
-- src/pool_cache/dlmm/bins.rs, `fetch_bins_fresh` and `fetch_reserves_inner`: reads that take recent
-- data from the gRPC cache and the rest from the node. The cache is given as it is at each phase.
use solana_atomic_arbitrage.Base.{ℕ, List, [], ◌∷◌, ◌++◌, Option, none, some, length, ltb}
use solana_atomic_arbitrage.Base.Bytes.{slice, from_le_bytes}
use solana_atomic_arbitrage.Base.Int.{pos}
use solana_atomic_arbitrage.Base.Options.{◌>>=◌, ◌>>◌, none_if}
use solana_atomic_arbitrage.Client.Pool.{key_at}
use solana_atomic_arbitrage.PoolCache.Dlmm.{
  DlmmBin, DlmmPoolReserves, parse_bin_array_data, parse_all, i32_at, array_indices,
  bin_array_addresses, offsets_of_three, offsets_of_five, reserve_pda,
}
use solana_atomic_arbitrage.PoolCache.Grpc.{GeyserPoolCache, get_recent}
use solana_atomic_arbitrage.PoolCache.Node.{
  Account, Node, parse_token_amount, parse_optional_pubkey, amount_at,
}
use solana_atomic_arbitrage.Router.Types.{Pubkey, Runtime}

abbrev bytes_of : Option Account → Option (List ℕ)
bytes_of none = none
bytes_of (some a) = some a.bytes

-- Recent data of the cache, or else the node's.
unfoldable pub recent_or_node : GeyserPoolCache → Node → Pubkey → Option (List ℕ)
recent_or_node c node key = elim (get_recent c key) [
  | some bytes ↦ some bytes
  | none ↦ bytes_of (node.get_account key)
]

-- The bins of the arrays that the cache has, and the addresses that it does not.
unfoldable pub cached_bins : GeyserPoolCache → List Pubkey → List DlmmBin × List Pubkey
cached_bins c [] = ([], [])
cached_bins c (key ∷ keys) =
    let (bins, missed) = cached_bins c keys in
    elim (get_recent c key) [
      | some bytes ↦ (parse_bin_array_data bytes ++ bins, missed)
      | none ↦ (bins, key ∷ missed)
    ]

-- The batched read of the missed arrays, if there are any.
unfoldable pub missed_bins : Node → List Pubkey → Option (List DlmmBin)
missed_bins node [] = some []
missed_bins node (key ∷ keys) = do
  accounts ← node.get_multiple_accounts (key ∷ keys)
  some (parse_all accounts)

unfoldable pub fetch_bins_fresh :
    Runtime → Node → GeyserPoolCache → GeyserPoolCache → Pubkey → Option (List DlmmBin)
fetch_bins_fresh rt node pair_cache array_cache lb_pair = do
  bytes ← recent_or_node pair_cache node lb_pair
  none_if (ltb (length bytes) 152)
  let arrays = bin_array_addresses rt lb_pair (array_indices offsets_of_three (i32_at bytes 76))
  let (bins, missed) = cached_bins array_cache arrays
  others ← missed_bins node missed
  some (bins ++ others)

-- One read for each missed array; a failed one is left out.
unfoldable pub bins_one_by_one : Node → List Pubkey → List DlmmBin
bins_one_by_one node [] = []
bins_one_by_one node (key ∷ keys) =
    let rest = bins_one_by_one node keys in
    elim (node.get_account key) [ none ↦ rest | some a ↦ parse_bin_array_data a.bytes ++ rest ]

unfoldable pub cached_amount : GeyserPoolCache → Pubkey → Option ℕ
cached_amount c key = do bytes ← get_recent c key; parse_token_amount bytes

-- Both reserves from the cache, or both from one call to the node.
unfoldable pub pair_reserves : GeyserPoolCache → Node → Pubkey → Pubkey → Option (ℕ × ℕ)
pair_reserves c node x y = elim (cached_amount c x) [
  | none ↦ from_node
  | some rx ↦ elim (cached_amount c y) [ none ↦ from_node | some ry ↦ some (rx, ry) ]
]
  where
    from_node : Option (ℕ × ℕ)
    from_node = do
      accounts ← node.get_multiple_accounts (x ∷ y ∷ [])
      some (amount_at accounts 0, amount_at accounts 1)

unfoldable pub fetch_reserves_inner :
    Runtime → Node → GeyserPoolCache → GeyserPoolCache → Pubkey → Option DlmmPoolReserves
fetch_reserves_inner rt node pair_cache array_cache lb_pair = do
  bytes ← recent_or_node pair_cache node lb_pair
  none_if (ltb (length bytes) 152)
  let token_x_mint = key_at bytes 88
  let token_y_mint = key_at bytes 120
  let reserve_x_pda = reserve_pda rt lb_pair token_x_mint
  let reserve_y_pda = reserve_pda rt lb_pair token_y_mint
  reserves ← pair_reserves array_cache node reserve_x_pda reserve_y_pda
  let arrays = bin_array_addresses rt lb_pair (array_indices offsets_of_five (i32_at bytes 76))
  let (bins, missed) = cached_bins array_cache arrays
  some (record {
    lb_pair = lb_pair;
    token_x_mint = token_x_mint;
    token_y_mint = token_y_mint;
    reserve_x = reserves.0;
    reserve_y = reserves.1;
    reserve_x_address = reserve_x_pda;
    reserve_y_address = reserve_y_pda;
    bin_array_addresses = arrays;
    bins = bins ++ bins_one_by_one node missed;
    bin_step = from_le_bytes (slice bytes 80 2);
    base_factor = from_le_bytes (slice bytes 84 2);
    active_id = i32_at bytes 76;
    bin_array_bitmap_extension = parse_optional_pubkey bytes 248;
    sqrt_price = 0;
    tick_current_index = pos 0;
    fee_rate = 0;
  })
