-- ===== src/PoolCache/Grpc.antt =====
-- src/grpc_stream/mod.rs: the account cache that the gRPC stream fills. The map is a function of
-- the key; each method is one step, since its atomics and locks are taken one at a time.
pub mod Slots
use solana_atomic_arbitrage.Base.{
  ℕ, ◌+◌, ◌-◌, Bool, true, false, ◌&&◌, List, [], ◌∷◌, Option, none, some, ltb, leb, ◌==◌,
  if◌then◌else◌,
}
use solana_atomic_arbitrage.Router.Types.{Pubkey}

pub record CachedAccount : Type 0 where
  pub bytes : List ℕ
  pub slot : ℕ
  pub owner : List ℕ

pub record GeyserPoolCache : Type 0 where
  pub accounts : Pubkey → Option CachedAccount
  pub latest_slot : ℕ
  pub blockhash : List ℕ
  pub blockhash_slot : ℕ

-- `GeyserPoolCache::default`; a default hash is 32 zero bytes.
unfoldable pub empty_cache : List ℕ → GeyserPoolCache
empty_cache default_hash = record {
  accounts = λ key. none;
  latest_slot = 0;
  blockhash = default_hash;
  blockhash_slot = 0;
}

unfoldable pub get_with_slot : GeyserPoolCache → Pubkey → Option (List ℕ × ℕ)
get_with_slot c key = elim (c.accounts key) [ none ↦ none | some e ↦ some (e.bytes, e.slot) ]

-- `fetch_max`
abbrev pub max_slot : ℕ → ℕ → ℕ
max_slot a b = if ltb a b then b else a

unfoldable pub put : GeyserPoolCache → Pubkey → List ℕ → List ℕ → ℕ → GeyserPoolCache
put c key bytes owner slot = record c {
  accounts = λ k.
      if k == key
      then some (record { bytes = bytes; slot = slot; owner = owner })
      else c.accounts k;
  latest_slot = max_slot c.latest_slot slot;
}

unfoldable pub put_blockhash : GeyserPoolCache → List ℕ → ℕ → GeyserPoolCache
put_blockhash c blockhash slot =
    if ltb c.blockhash_slot slot
    then record c { blockhash = blockhash; blockhash_slot = slot }
    else c

unfoldable pub get_latest_blockhash : GeyserPoolCache → List ℕ
get_latest_blockhash c = c.blockhash

unfoldable pub get_fresh_blockhash : GeyserPoolCache → Option (List ℕ)
get_fresh_blockhash c =
    if ltb 0 c.blockhash_slot && (ltb 0 c.latest_slot && leb (c.latest_slot - c.blockhash_slot) 10)
    then some c.blockhash
    else none

-- The guard of the readers in src/pool_cache/dlmm/bins.rs: data at most two slots old.
unfoldable pub get_recent : GeyserPoolCache → Pubkey → Option (List ℕ)
get_recent c key = elim (c.accounts key) [
  | none ↦ none
  | some e ↦ if ltb 0 c.latest_slot && leb (c.latest_slot - e.slot) 2 then some e.bytes else none
]

-- The slot from which a connection replays, given the slot at startup.
unfoldable pub replay_from : ℕ → GeyserPoolCache → Option ℕ
replay_from startup c =
    if startup == 0
    then none
    else if ltb 500 c.latest_slot
    then some (c.latest_slot - 500)
    else if ltb 1000 startup
    then some (startup - 1000)
    else none
