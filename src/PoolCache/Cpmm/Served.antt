-- ===== src/PoolCache/Cpmm/Served.antt =====
-- src/pool_cache/cpmm.rs: what the cache serves, against a node whose answers change in time.
use solana_atomic_arbitrage.Base.{
  ℕ, ◌+◌, ◌*◌, ◌≤◌, ◌<◌, ◌≡◌, ◌∙◌, sym, inl, inr, refl, ap, subst, Bool, false, Option, none, some,
  Option-cases, Bool-cases, if_ind, ◌==◌, ==→eq, arith,
}
use solana_atomic_arbitrage.Client.Simulator.Raydium.{PoolStateData}
use solana_atomic_arbitrage.PoolCache.Entry.{CacheEntry, new, is_stale, nanos_per_sec, cache_key}
use solana_atomic_arbitrage.PoolCache.Node.{Node}
use solana_atomic_arbitrage.PoolCache.Cpmm.{
  by_mints, by_address, same_key, CpmmCache, insert_entry, fresh_entry, store_by_address,
  should_insert, fetch_cpmm_by_address, read_pool_state_at,
}
use solana_atomic_arbitrage.Router.Types.{Pubkey, Runtime}

-- The node of a read whose account was answered at one instant and whose vaults at another.
abbrev pub seen : (ℕ → Node) → ℕ → ℕ → Node
seen nodes account_at vaults_at = record {
  get_account = (nodes account_at).get_account;
  get_multiple_accounts = (nodes vaults_at).get_multiple_accounts;
}

module _ (text_lt : Pubkey → Pubkey → Bool) (rt : Runtime) (nodes : ℕ → Node) (delay : ℕ) where
  -- The state was read by calls of which the first was answered at most `delay` before the stamp.
  abbrev pub Sourced : Pubkey → ℕ → Option PoolStateData → Type 0
  Sourced pool stamp state =
      (account_at : ℕ) × (vaults_at : ℕ) × (account_at ≤ vaults_at)
      × (vaults_at ≤ stamp)
      × (stamp ≤ account_at + delay)
      × (state ≡ read_pool_state_at rt (seen nodes account_at vaults_at) pool)

  -- The entries by address were sourced before they were stamped.
  abbrev pub IsSourced : CpmmCache → Type 0
  IsSourced cache =
      (pool : Pubkey) (e : CacheEntry (Option PoolStateData))
      → cache (by_address pool) ≡ some e
      → (e.negative ≡ false) × Sourced pool e.updated_at e.value

  -- A result that the node has given, to calls of which the first was answered less than 61 seconds
  -- and the delay before `now`, or later.
  abbrev pub RecentlyRead : Pubkey → ℕ → Option PoolStateData → Type 0
  RecentlyRead pool now result =
      (account_at : ℕ) × (vaults_at : ℕ) × (account_at ≤ vaults_at)
      × (now < account_at + delay + 61 * nanos_per_sec)
      × (result ≡ read_pool_state_at rt (seen nodes account_at vaults_at) pool)

  insert_by_mints-IsSourced :
      (key : Pubkey × Pubkey) (e : CacheEntry (Option PoolStateData)) (cache : CpmmCache)
      → IsSourced cache
      → IsSourced (insert_entry (by_mints key) e cache)
  unfolding insert_entry same_key
  insert_by_mints-IsSourced key e cache h = λ pool e' found. h pool e' found

  insert_by_address-IsSourced :
      (pool : Pubkey) (stamp : ℕ) (state : Option PoolStateData) (cache : CpmmCache)
      → Sourced pool stamp state
      → IsSourced cache
      → IsSourced (insert_entry (by_address pool) (new stamp state) cache)
  unfolding insert_entry same_key new
  insert_by_address-IsSourced pool stamp state cache read h = λ p e found.
      elim (Bool-cases (p == pool)) [
        | inl same ↦
            let written : new stamp state ≡ e = ground arith in
            subst
              (λ (x : CacheEntry (Option PoolStateData)).
                (x.negative ≡ false) × Sourced p x.updated_at x.value)
              written (refl, subst (λ q. Sourced q stamp state) (sym (==→eq p pool same)) read)
        | inr other ↦ h p e (ground arith)
      ]

  store_by_address-IsSourced :
      (node : Node) (pool : Pubkey) (stamp stamp_by_mints : ℕ) (state : Option PoolStateData)
      (cache : CpmmCache)
      → Sourced pool stamp state
      → IsSourced cache
      → IsSourced (store_by_address text_lt rt node pool stamp stamp_by_mints state cache)
  unfolding store_by_address
  store_by_address-IsSourced node pool stamp stamp_by_mints none cache read h =
      insert_by_address-IsSourced pool stamp none cache read h
  store_by_address-IsSourced node pool stamp stamp_by_mints (some s) cache read h =
      let cache' : CpmmCache = insert_entry (by_address pool) (new stamp (some s)) cache in
      let stored : IsSourced cache' =
        insert_by_address-IsSourced pool stamp (some s) cache read h in
      let key : Pubkey × Pubkey = cache_key text_lt s.token_0_mint s.token_1_mint in
      if_ind IsSourced (should_insert text_lt rt node cache' (by_mints key))
        {x = insert_entry (by_mints key) (new stamp_by_mints (some s)) cache'} {y = cache'}
        (λ _. insert_by_mints-IsSourced key (new stamp_by_mints (some s)) cache' stored)
        (λ _. stored)

  -- An entry that is served is at most a minute old.
  fresh_entry-young :
      (pool : Pubkey) (now : ℕ) (cache : CpmmCache) (e : CacheEntry (Option PoolStateData))
      → IsSourced cache
      → fresh_entry cache (by_address pool) now ≡ some e
      → RecentlyRead pool now e.value
  unfolding fresh_entry is_stale
  fresh_entry-young pool now cache e h found = elim (Option-cases (cache (by_address pool))) [
    | inl gone ↦ absurd (missing gone)
    | inr (e', held) ↦
        let (positive, read) = h pool e' held in
        let (account_at, vaults_at, order, _, soon, value) = read in
        let same : e' ≡ e = ground arith in
        let young : now < e'.updated_at + 61 * nanos_per_sec = ground arith in
        (
          account_at,
          vaults_at,
          order,
          omega arith,
          ap (λ (x : CacheEntry (Option PoolStateData)). x.value) (sym same) ∙ value,
        )
  ]
    where
      missing : cache (by_address pool) ≡ none → ⊥
      missing gone = ground arith

  module _ (pool : Pubkey) (now account_at vaults_at stamp stamp_by_mints : ℕ)
      (cache locked : CpmmCache) (sourced : IsSourced cache) (sourced' : IsSourced locked)
      (begun : now ≤ account_at) (order : account_at ≤ vaults_at) (ended : vaults_at ≤ stamp)
      (soon : stamp ≤ account_at + delay) where
    abbrev fetched : CpmmCache × Option PoolStateData
    fetched =
        fetch_cpmm_by_address text_lt rt (seen nodes account_at vaults_at) pool now stamp
          stamp_by_mints cache locked

    hit :
        (e : CacheEntry (Option PoolStateData))
        → fresh_entry cache (by_address pool) now ≡ some e
        → (locked, e.value) ≡ fetched
    unfolding fetch_cpmm_by_address
    hit e found = rw (found, fetch_cpmm_by_address) refl

    miss :
        fresh_entry cache (by_address pool) now ≡ none
        → (
          store_by_address text_lt rt
              (seen nodes account_at vaults_at)
              pool
              stamp
              stamp_by_mints
              (read_pool_state_at rt (seen nodes account_at vaults_at) pool)
              locked,
          read_pool_state_at rt (seen nodes account_at vaults_at) pool,
        )
          ≡ fetched
    unfolding fetch_cpmm_by_address
    miss gone = rw (gone, fetch_cpmm_by_address) refl

    abbrev IsServed : CpmmCache × Option PoolStateData → Type 0
    IsServed r = IsSourced r.0 × RecentlyRead pool now r.1

    -- If every entry by address was answered by the node, its vaults not before its account, at
    -- most the delay before its stamp, and a read is answered in this order behind its look-up and
    -- stamped within the delay, the read keeps the entries so. Its result is what the node
    -- answered, for the pool's account less than 61 seconds and the delay before the look-up, or
    -- later.
    pub fetch_cpmm_by_address-RecentlyRead :
        IsSourced
          (fetch_cpmm_by_address text_lt rt
            (seen nodes account_at vaults_at)
            pool
            now
            stamp
            stamp_by_mints
            cache
            locked).0
        × RecentlyRead pool now
            (fetch_cpmm_by_address text_lt rt
              (seen nodes account_at vaults_at)
              pool
              now
              stamp
              stamp_by_mints
              cache
              locked).1
    fetch_cpmm_by_address-RecentlyRead =
        let read : Sourced pool stamp
            (read_pool_state_at rt (seen nodes account_at vaults_at) pool) =
          (account_at, vaults_at, order, ended, soon, refl) in
        elim (Option-cases (fresh_entry cache (by_address pool) now)) [
          | inr (e, found) ↦
              subst IsServed (hit e found)
                (sourced', fresh_entry-young pool now cache e sourced found)
          | inl gone ↦ subst IsServed (miss gone) (
            store_by_address-IsSourced (seen nodes account_at vaults_at) pool stamp stamp_by_mints _
                locked read sourced',
            (account_at, vaults_at, order, omega arith, refl),
          )
        ]
