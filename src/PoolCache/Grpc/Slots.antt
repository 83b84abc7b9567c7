-- ===== src/PoolCache/Grpc/Slots.antt =====
-- src/grpc_stream/mod.rs: what the slots of the cache say after a stream of updates.
use solana_atomic_arbitrage.Base.{ℕ, ◌≤◌, ◌≡◌, ◌⊎◌, List, [], ◌∷◌, some, arith}
use solana_atomic_arbitrage.PoolCache.Grpc.{
  CachedAccount, GeyserPoolCache, empty_cache, put, put_blockhash,
}
use solana_atomic_arbitrage.Router.Types.{Pubkey}

pub data Update : Type 0 where
  account_update : Pubkey → List ℕ → List ℕ → ℕ → Update
  block_meta : List ℕ → ℕ → Update

unfoldable pub apply_update : GeyserPoolCache → Update → GeyserPoolCache
apply_update c (account_update key bytes owner slot) = put c key bytes owner slot
apply_update c (block_meta blockhash slot) = put_blockhash c blockhash slot

unfoldable pub stream : GeyserPoolCache → List Update → GeyserPoolCache
stream c [] = c
stream c (u ∷ us) = stream (apply_update c u) us

-- The stream has told of an account's data at a slot.
abbrev pub Told : List Update → Pubkey → List ℕ → ℕ → Type 0
Told [] key bytes slot = ⊥
Told (account_update k b o s ∷ us) key bytes slot =
    ((k ≡ key) × (b ≡ bytes) × (s ≡ slot)) ⊎ Told us key bytes slot
Told (block_meta h s ∷ us) key bytes slot = Told us key bytes slot

-- Every cached account is at a slot up to the latest, which the updates so far have told.
abbrev pub IsCurrent : GeyserPoolCache → Type 0
IsCurrent c = (key : Pubkey) (e : CachedAccount) → c.accounts key ≡ some e → e.slot ≤ c.latest_slot

apply_update-IsCurrent :
    (c : GeyserPoolCache) (u : Update)
    → IsCurrent c
    → IsCurrent (apply_update c u)
      × (c.latest_slot ≤ (apply_update c u).latest_slot)
      × (c.blockhash_slot ≤ (apply_update c u).blockhash_slot)
unfolding apply_update put put_blockhash
apply_update-IsCurrent c (account_update k bytes owner slot) h =
    (λ key e found. ground (arith, h key e), ground arith, ground arith)
apply_update-IsCurrent c (block_meta hash slot) h =
    (λ key e found. ground (arith, h key e), ground arith, ground arith)

stream-IsCurrent_from :
    (c : GeyserPoolCache) (us : List Update)
    → IsCurrent c
    → IsCurrent (stream c us)
      × (c.latest_slot ≤ (stream c us).latest_slot)
      × (c.blockhash_slot ≤ (stream c us).blockhash_slot)
unfolding stream
stream-IsCurrent_from c [] h = (h, omega arith, omega arith)
stream-IsCurrent_from c (u ∷ us) h =
    let (now, l, b) = apply_update-IsCurrent c u h in
    let (later, l', b') = stream-IsCurrent_from (apply_update c u) us now in
    (later, omega arith, omega arith)

-- Every cached account is one that the updates have told.
abbrev IsTold : List Update → GeyserPoolCache → Type 0
IsTold all c =
    (key : Pubkey) (e : CachedAccount) → c.accounts key ≡ some e → Told all key e.bytes e.slot

-- Cached slots stay up to the latest slot, which never falls, nor does the slot of the blockhash.
pub stream-IsCurrent :
    (default_hash : List ℕ) (us vs : List Update)
    → IsCurrent (stream (empty_cache default_hash) us)
      × ((stream (empty_cache default_hash) us).latest_slot
          ≤ (stream (stream (empty_cache default_hash) us) vs).latest_slot)
      × ((stream (empty_cache default_hash) us).blockhash_slot
          ≤ (stream (stream (empty_cache default_hash) us) vs).blockhash_slot)
unfolding empty_cache
stream-IsCurrent default_hash us vs =
    let (current, _, _) = stream-IsCurrent_from (empty_cache default_hash) us (λ key e found. cc) in
    let (_, l, b) = stream-IsCurrent_from (stream (empty_cache default_hash) us) vs current in
    (current, l, b)
