-- ===== src/PoolCache/Entry.antt =====
-- src/pool_cache/types.rs: cache entries and the small functions that the caches share. An instant
-- is a number of nanoseconds; a key's text is taken as the key it spells.
pub mod Age
use solana_atomic_arbitrage.Base.{
  ℕ, ◌+◌, ◌-◌, ◌*◌, ◌/◌, Bool, true, false, ◌||◌, ltb, ◌==◌, if◌then◌else◌, List, [], ◌∷◌, Option,
  some, none,
}
use solana_atomic_arbitrage.Client.Constants
use solana_atomic_arbitrage.Router.Types.{Pubkey}

abbrev pub cache_ttl_secs : ℕ
cache_ttl_secs = 60

abbrev pub negative_cache_ttl_secs : ℕ
negative_cache_ttl_secs = 120

abbrev pub nanos_per_sec : ℕ
nanos_per_sec = 1_000_000_000

pub record CacheEntry {ℓ} (T : Type ℓ) : Type ℓ where
  pub value : T
  pub updated_at : ℕ
  pub negative : Bool

module _ {ℓ} {T : Type ℓ} where
  unfoldable pub new : ℕ → T → CacheEntry T
  new now value = record { value = value; updated_at = now; negative = false }

  unfoldable pub new_negative : ℕ → T → CacheEntry T
  new_negative now value = record { value = value; updated_at = now; negative = true }

  -- The clock is past `CACHE_TTL_SECS + 1` seconds, as `Instant` subtraction needs.
  unfoldable pub new_persisted : ℕ → T → CacheEntry T
  new_persisted now value = record {
    value = value;
    updated_at = now - (cache_ttl_secs + 1) * nanos_per_sec;
    negative = false;
  }

  unfoldable pub age_secs : CacheEntry T → ℕ → ℕ
  age_secs entry now = (now - entry.updated_at) / nanos_per_sec

  unfoldable pub is_stale : CacheEntry T → ℕ → Bool
  is_stale entry now =
      ltb (if entry.negative then negative_cache_ttl_secs else cache_ttl_secs)
        ((now - entry.updated_at) / nanos_per_sec)

-- `next_utc_midnight`, given the seconds since the epoch, which fit i64.
unfoldable pub next_utc_midnight : ℕ → ℕ
next_utc_midnight now = (now / 86400 + 1) * 86400

-- A key of the caches by mints: the two mints in the order of their texts, which `text_lt` compares.
unfoldable pub cache_key : (Pubkey → Pubkey → Bool) → Pubkey → Pubkey → Pubkey × Pubkey
cache_key text_lt t0 t1 = if text_lt t0 t1 then (t0, t1) else (t1, t0)

unfoldable pub is_stablecoin : Pubkey → Bool
is_stablecoin mint = (mint == Constants.usdc_mint) || (mint == Constants.usdt_mint)

unfoldable pub guess_decimals : Pubkey → ℕ
guess_decimals mint =
    if mint == Constants.native_sol_mint
    then Constants.sol_decimals
    else if (mint == Constants.usdc_mint) || (mint == Constants.usdt_mint)
    then Constants.usdc_decimals
    else Constants.default_decimals
