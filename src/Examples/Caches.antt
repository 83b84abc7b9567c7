-- ===== src/Examples/Caches.antt =====
-- The pool caches and the stream cache at concrete inputs.
use solana_atomic_arbitrage.Base.{
  ℕ, ◌+◌, ◌≡◌, ◌⊎◌, refl, Bool, true, List, [], ◌∷◌, ◌++◌, some, none, replicate, ltb, arith,
  if◌then◌else◌, ◌==◌,
}
use solana_atomic_arbitrage.Base.Bytes.{to_be_bytes, to_le_bytes}
use solana_atomic_arbitrage.Base.Int.{negsuc}
use solana_atomic_arbitrage.Base.Options.{none_if, ◌>>=◌}
use solana_atomic_arbitrage.Client.Constants as Sent
use solana_atomic_arbitrage.Client.Pool.{key_at, from_be_bytes}
use solana_atomic_arbitrage.Client.Simulator.Raydium.{PoolStateData}
use solana_atomic_arbitrage.PoolCache.Cpmm.{
  CpmmCache, fetch_cpmm_by_address, read_pool, find_pool, mints_differ,
}
use solana_atomic_arbitrage.PoolCache.Cpmm.Served.{
  seen, IsSourced, RecentlyRead, fetch_cpmm_by_address-RecentlyRead,
}
use solana_atomic_arbitrage.PoolCache.Cpmm.Vaults.{OwnVaults, CrossedVaults, read_pool-vaults}
use solana_atomic_arbitrage.PoolCache.Dlmm.{
  array_indices, offsets_of_three, offsets_of_five, parse_bin_array_data,
}
use solana_atomic_arbitrage.PoolCache.Dlmm.Agreement.{oriented, bins_of-eq-oriented}
use solana_atomic_arbitrage.PoolCache.Dlmm.Window.{HoldsBin, array_indices-HoldsBin}
use solana_atomic_arbitrage.PoolCache.Grpc.Slots.{Update, account_update, block_meta}
use solana_atomic_arbitrage.PoolCache.Node.{Node, vault_balances}
use solana_atomic_arbitrage.Router.Pricing.Dlmm.{bins_of}
use solana_atomic_arbitrage.Router.Types.{Pubkey, Runtime, as_ref}

array_indices-HoldsBin_example :
    HoldsBin (array_indices offsets_of_three (negsuc 4141)) (negsuc 4141)
    × HoldsBin (array_indices offsets_of_five (negsuc 4141)) (negsuc 4141)
array_indices-HoldsBin_example = array_indices-HoldsBin (negsuc 4141) (omega arith)

abbrev bin_array : List ℕ
bin_array = replicate 56 0 ++ (to_le_bytes 8 40 ++ (to_le_bytes 8 90 ++ replicate 300 0))

bins_of-eq-oriented_example :
    bins_of true bin_array ≡ oriented true (parse_bin_array_data bin_array)
bins_of-eq-oriented_example = bins_of-eq-oriented true bin_array

-- Account 9 at slot 100, then a block, then account 8 at slot 102.
abbrev updates : List Update
updates =
    account_update 9 (1 ∷ []) [] 100
    ∷ block_meta (7 ∷ []) 101
    ∷ account_update 8 (2 ∷ []) [] 102
    ∷ []

-- The pool of every two mints is 6, and the vault of a mint is 1000 behind it.
abbrev cpmm_address : List (List ℕ) → Pubkey
cpmm_address (a ∷ b ∷ c ∷ []) = 1000 + key_at c 0
cpmm_address _ = 6

abbrev cpmm_runtime : Runtime
cpmm_runtime = record {
  find_program_address = λ seeds program. cpmm_address seeds;
  invoke = λ ix accounts. none;
}

-- Pool 6 holds mint 4 and mint 3 in this order.
abbrev cpmm_bytes : List ℕ
cpmm_bytes = replicate 168 0 ++ (as_ref 4 ++ as_ref 3)

abbrev cpmm_node : ℕ → Node
cpmm_node time = record {
  get_account = λ key.
      if key == 6 then some (record { owner = Sent.cpmm_program; bytes = cpmm_bytes }) else none;
  get_multiple_accounts = λ keys. none;
}

abbrev text_lt : Pubkey → Pubkey → Bool
text_lt a b = ltb a b

abbrev crossed_pool : PoolStateData
crossed_pool = record {
  pool_pubkey = 6;
  config_pubkey = Sent.cpmm_amm_config;
  token_0_mint = 4;
  token_1_mint = 3;
  token_0_vault = 1003;
  token_1_vault = 1004;
  token_0_vault_raw = 0;
  token_1_vault_raw = 0;
}

crossed_pool_read : read_pool cpmm_runtime (cpmm_node 0) 3 4 ≡ some crossed_pool
unfolding read_pool as_ref to_be_bytes from_be_bytes ◌>>=◌ find_pool none_if mints_differ
    vault_balances
crossed_pool_read = refl

read_pool-vaults_example :
    ((crossed_pool.token_0_mint ≡ 3)
      × (crossed_pool.token_1_mint ≡ 4)
      × OwnVaults cpmm_runtime crossed_pool)
    ⊎ ((crossed_pool.token_0_mint ≡ 4)
        × (crossed_pool.token_1_mint ≡ 3)
        × CrossedVaults cpmm_runtime crossed_pool)
read_pool-vaults_example =
    read_pool-vaults cpmm_runtime (cpmm_node 0) 3 4 crossed_pool crossed_pool_read

abbrev no_entries : CpmmCache
no_entries = λ key. none

no_entries-IsSourced : IsSourced text_lt cpmm_runtime cpmm_node 5 no_entries
no_entries-IsSourced pool e found = cc

-- The cache behind a first read of pool 6, which begins at instant 1, is answered at 2 and at 3, and
-- stamped at 6 and at 7.
abbrev warm_cache : CpmmCache
warm_cache =
    (fetch_cpmm_by_address text_lt cpmm_runtime (seen cpmm_node 2 3) 6 1 6 7 no_entries
      no_entries).0

warm_cache-IsSourced : IsSourced text_lt cpmm_runtime cpmm_node 5 warm_cache
warm_cache-IsSourced =
    (fetch_cpmm_by_address-RecentlyRead text_lt cpmm_runtime cpmm_node 5 6 1 2 3 6 7 no_entries
      no_entries no_entries-IsSourced no_entries-IsSourced (omega arith) (omega arith) (omega arith)
      (omega arith)).0

fetch_cpmm_by_address-RecentlyRead_example :
    IsSourced text_lt cpmm_runtime cpmm_node 5
      (fetch_cpmm_by_address text_lt cpmm_runtime
        (seen cpmm_node 9 10)
        6
        8
        12
        13
        warm_cache
        warm_cache).0
    × RecentlyRead text_lt cpmm_runtime cpmm_node 5 6 8
        (fetch_cpmm_by_address text_lt cpmm_runtime
          (seen cpmm_node 9 10)
          6
          8
          12
          13
          warm_cache
          warm_cache).1
fetch_cpmm_by_address-RecentlyRead_example =
    fetch_cpmm_by_address-RecentlyRead text_lt cpmm_runtime cpmm_node 5 6 8 9 10 12 13 warm_cache
      warm_cache warm_cache-IsSourced warm_cache-IsSourced (omega arith) (omega arith) (omega arith)
      (omega arith)
