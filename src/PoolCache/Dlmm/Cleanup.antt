-- ===== src/PoolCache/Dlmm/Cleanup.antt =====
-- src/pool_cache/dlmm/reserves.rs: the removal of pairs whose account is gone from the three caches.
-- The maps are association lists; the database is left out.
use solana_atomic_arbitrage.Base.{
  ℕ, ◌*◌, ◌%◌, ◌^◌, Bool, true, false, ◌||◌, not, List, [], ◌∷◌, Option, none, some, ◌==◌,
  if◌then◌else◌,
}
use solana_atomic_arbitrage.PoolCache.Dlmm.{DlmmPoolReserves, DlmmPoolMetadata}
use solana_atomic_arbitrage.PoolCache.Entry.{CacheEntry}
use solana_atomic_arbitrage.Router.Types.{Pubkey}

-- The pairs without reserves.
unfoldable pub stale_pairs : List Pubkey → List (Option DlmmPoolReserves) → List Pubkey
stale_pairs (pair ∷ pairs) (none ∷ reserves) = pair ∷ stale_pairs pairs reserves
stale_pairs (pair ∷ pairs) (some r ∷ reserves) = stale_pairs pairs reserves
stale_pairs _ _ = []

unfoldable pub contains : List Pubkey → Pubkey → Bool
contains [] key = false
contains (k ∷ ks) key = (k == key) || contains ks key

-- `retain`
unfoldable pub retain {ℓ} : {A : Type ℓ} → (A → Bool) → List A → List A
retain keep [] = []
retain keep (x ∷ xs) = let rest = retain keep xs in if keep x then x ∷ rest else rest

pub record DlmmCaches : Type 0 where
  pub token_lb_pairs : List (Pubkey × Pubkey)
  pub reserves : List ((Pubkey × Pubkey) × CacheEntry (Option DlmmPoolReserves))
  pub pool_metadata : List ((Pubkey × Pubkey) × List DlmmPoolMetadata)

abbrev keeps_reserves :
    List Pubkey → (Pubkey × Pubkey) × CacheEntry (Option DlmmPoolReserves) → Bool
keeps_reserves stale (key, entry) = elim entry.value [
  | none ↦ true
  | some r ↦ not (contains stale r.lb_pair)
]

-- The pools of each key that are left, and the keys that have any.
unfoldable pub retain_metadata :
    List Pubkey
    → List ((Pubkey × Pubkey) × List DlmmPoolMetadata)
    → List ((Pubkey × Pubkey) × List DlmmPoolMetadata)
retain_metadata stale [] = []
retain_metadata stale ((key, pools) ∷ entries) =
    let rest = retain_metadata stale entries in
    elim (retain (λ (m : DlmmPoolMetadata). not (contains stale m.lb_pair)) pools) [
      | [] ↦ rest
      | m ∷ ms ↦ (key, m ∷ ms) ∷ rest
    ]

-- With no stale pair the code returns at once.
unfoldable pub cleanup_stale_lb_pairs :
    List Pubkey → List (Option DlmmPoolReserves) → DlmmCaches → DlmmCaches
cleanup_stale_lb_pairs all_lb_pairs all_reserves caches =
    elim (stale_pairs all_lb_pairs all_reserves) [
      | [] ↦ caches
      | pair ∷ pairs ↦
          let stale = pair ∷ pairs in
          record {
            token_lb_pairs =
                retain (λ (e : Pubkey × Pubkey). not (contains stale e.1)) caches.token_lb_pairs;
            reserves = retain (keeps_reserves stale) caches.reserves;
            pool_metadata = retain_metadata stale caches.pool_metadata;
          }
    ]

-- The two casts to 16 bits, of which an equal second one is dropped.
unfoldable pub base_factors_for : ℕ → List ℕ
base_factors_for bin_step =
    let first = bin_step * 400 % 2 ^ 16 in
    let second = bin_step * 100 % 2 ^ 16 in
    if first == second then first ∷ [] else first ∷ second ∷ []
