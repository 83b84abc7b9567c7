-- ===== src/PoolCache/Entry/Age.antt =====
-- src/pool_cache/types.rs: how long an entry is served, and when a skipped pool is tried again.
use solana_atomic_arbitrage.Base.{ℕ, ◌+◌, ◌*◌, ◌%◌, ◌≤◌, ◌<◌, ◌≡◌, ◌↔◌, Bool, true, false, arith}
use solana_atomic_arbitrage.PoolCache.Entry.{
  new, new_negative, new_persisted, is_stale, nanos_per_sec, next_utc_midnight, cache_key,
}
use solana_atomic_arbitrage.Router.Types.{Pubkey}

-- An entry is stale from 61 seconds on after it was written, a negative one from 121 seconds on.
pub is_stale_iff {ℓ} :
    {T : Type ℓ} (value : T) (written now : ℕ)
    → ((is_stale (new written value) now ≡ true) ↔ (written + 61 * nanos_per_sec ≤ now))
      × ((is_stale (new_negative written value) now ≡ true) ↔ (written + 121 * nanos_per_sec ≤ now))
unfolding is_stale new new_negative
is_stale_iff value written now =
    ((λ h. ground arith, λ h. ground arith), (λ h. ground arith, λ h. ground arith))

-- An entry loaded from the database is stale from the start, on a clock past 61 seconds.
new_persisted-stale {ℓ} :
    {T : Type ℓ} (value : T) (loaded now : ℕ)
    → 61 * nanos_per_sec ≤ loaded
    → loaded ≤ now
    → is_stale (new_persisted loaded value) now ≡ true
unfolding is_stale new_persisted
new_persisted-stale value loaded now h k = ground arith

-- The time is a whole number of days, later than now, by a day at most.
pub next_utc_midnight_lem :
    (now : ℕ)
    → (now < next_utc_midnight now)
      × (next_utc_midnight now ≤ now + 86400)
      × (next_utc_midnight now % 86400 ≡ 0)
unfolding next_utc_midnight
next_utc_midnight_lem now = (omega arith, omega arith, omega arith)

-- The key does not depend on the order of the mints, if the texts are totally ordered.
pub cache_key_comm :
    (text_lt : Pubkey → Pubkey → Bool) (t0 t1 : Pubkey)
    → (text_lt t0 t1 ≡ true → text_lt t1 t0 ≡ false)
    → (text_lt t0 t1 ≡ false → text_lt t1 t0 ≡ false → t0 ≡ t1)
    → cache_key text_lt t0 t1 ≡ cache_key text_lt t1 t0
unfolding cache_key
cache_key_comm text_lt t0 t1 asym total = ground arith
