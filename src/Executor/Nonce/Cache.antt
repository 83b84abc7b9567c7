-- ===== src/Executor/Nonce/Cache.antt =====
-- src/executor/nonce.rs: what the nonce cache gives, after any calls of its two operations. The node
-- may answer every call differently.
use solana_atomic_arbitrage.Base.{
  ◌≡◌, ◌⊎◌, refl, subst, List, [], ◌∷◌, none, some, Option-cases, Bool-cases, inl, inr, ◌==◌, ==→eq,
  true, arith,
}
use solana_atomic_arbitrage.Executor.Nonce.{
  NonceData, Rpc, NonceCache, fetch_nonce_data, refill, cached_nonce_data, invalidate_nonce_cache,
}
use solana_atomic_arbitrage.Router.Types.{Pubkey}

-- A call of one of the two operations, a look-up with the node as it is then.
pub data NonceCall : Type 0 where
  look_up : Rpc → Pubkey → NonceCall
  invalidate : NonceCall

-- The cache behind a history of calls, the newest first.
unfoldable pub cache_after : List NonceCall → NonceCache
cache_after [] = none
cache_after (look_up rpc pk ∷ past) = (cached_nonce_data rpc pk (cache_after past)).0
cache_after (invalidate ∷ past) = invalidate_nonce_cache (cache_after past)

-- The node gave the data for the account to a look-up behind which there was no invalidation.
pub data AnsweredSince (pk : Pubkey) (nd : NonceData) : List NonceCall → Type 0 where
  answered :
      (rpc : Rpc) (past : List NonceCall)
      → fetch_nonce_data rpc pk ≡ some nd
      → AnsweredSince pk nd (look_up rpc pk ∷ past)
  before :
      (rpc : Rpc) (other : Pubkey) (past : List NonceCall)
      → AnsweredSince pk nd past
      → AnsweredSince pk nd (look_up rpc other ∷ past)

-- What the cache holds was answered.
abbrev IsAnswered : NonceCache → List NonceCall → Type 0
IsAnswered none history = Unit
IsAnswered (some (pk, nd)) history = AnsweredSince pk nd history

-- A cache that holds no more than another under the next look-up.
older :
    (rpc : Rpc) (pk : Pubkey) (cache : NonceCache) (past : List NonceCall)
    → IsAnswered cache past
    → IsAnswered cache (look_up rpc pk ∷ past)
older rpc pk none past h = tt
older rpc pk (some (held, nd)) past h = before rpc pk past h

refill-IsAnswered :
    (rpc : Rpc) (pk : Pubkey) (cache : NonceCache) (past : List NonceCall)
    → IsAnswered cache past
    → IsAnswered (refill rpc pk cache).0 (look_up rpc pk ∷ past)
unfolding refill
refill-IsAnswered rpc pk cache past h = elim (Option-cases (fetch_nonce_data rpc pk)) [
  | inl e ↦ rw (e, refill) (older rpc pk cache past h)
  | inr (nd, e) ↦ rw (e, refill) (answered rpc past e)
]

refill-eq-fetch :
    (rpc : Rpc) (pk : Pubkey) (cache : NonceCache)
    → (refill rpc pk cache).1 ≡ fetch_nonce_data rpc pk
unfolding refill
refill-eq-fetch rpc pk cache = elim (Option-cases (fetch_nonce_data rpc pk)) [
  | inl e ↦ rw (e, refill) refl
  | inr (nd, e) ↦ rw (e, refill) refl
]

look_up-IsAnswered :
    (rpc : Rpc) (pk : Pubkey) (cache : NonceCache) (past : List NonceCall)
    → IsAnswered cache past
    → IsAnswered (cached_nonce_data rpc pk cache).0 (look_up rpc pk ∷ past)
unfolding cached_nonce_data
look_up-IsAnswered rpc pk none past h = refill-IsAnswered rpc pk none past h
look_up-IsAnswered rpc pk (some (held, nd)) past h = elim (Bool-cases (held == pk)) [
  | inl hit ↦ rw hit (before rpc pk past h)
  | inr miss ↦ rw miss (refill-IsAnswered rpc pk (some (held, nd)) past h)
]

cache_after-IsAnswered : (history : List NonceCall) → IsAnswered (cache_after history) history
unfolding cache_after invalidate_nonce_cache
cache_after-IsAnswered [] = tt
cache_after-IsAnswered (look_up rpc pk ∷ past) =
    look_up-IsAnswered rpc pk (cache_after past) past (cache_after-IsAnswered past)
cache_after-IsAnswered (invalidate ∷ past) = tt

-- The two sources of a look-up's result.
look_up-sources :
    (rpc : Rpc) (pk : Pubkey) (cache : NonceCache) (history : List NonceCall)
    → IsAnswered cache history
    → ((cached_nonce_data rpc pk cache).1 ≡ fetch_nonce_data rpc pk)
      ⊎ ((nd : NonceData) × ((cached_nonce_data rpc pk cache).1 ≡ some nd)
          × AnsweredSince pk nd history)
unfolding cached_nonce_data
look_up-sources rpc pk none history h = inl (refill-eq-fetch rpc pk none)
look_up-sources rpc pk (some (held, nd)) history h = elim (Bool-cases (held == pk)) [
  | inl hit ↦ rw hit (inr (nd, refl, subst (λ k. AnsweredSince k nd history) (==→eq held pk hit) h))
  | inr miss ↦ rw miss (inl (refill-eq-fetch rpc pk (some (held, nd))))
]

same-key : (pk : Pubkey) → (pk == pk) ≡ true
same-key pk = ground arith

held-repeats :
    (later : Rpc) (pk : Pubkey) (nd : NonceData)
    → (cached_nonce_data later pk (some (pk, nd))).1 ≡ some nd
unfolding cached_nonce_data
held-repeats later pk nd = rw (same-key pk) refl

refill-repeats :
    (rpc later : Rpc) (pk : Pubkey) (cache : NonceCache)
    → ((refill rpc pk cache).1 ≡ none)
      ⊎ ((cached_nonce_data later pk (refill rpc pk cache).0).1 ≡ (refill rpc pk cache).1)
unfolding refill
refill-repeats rpc later pk cache = elim (Option-cases (fetch_nonce_data rpc pk)) [
  | inl e ↦ rw (e, refill) (inl refl)
  | inr (nd, e) ↦ rw (e, refill) (inr (held-repeats later pk nd))
]

look_up-repeats :
    (rpc later : Rpc) (pk : Pubkey) (cache : NonceCache)
    → ((cached_nonce_data rpc pk cache).1 ≡ none)
      ⊎ ((cached_nonce_data later pk (cached_nonce_data rpc pk cache).0).1
          ≡ (cached_nonce_data rpc pk cache).1)
unfolding cached_nonce_data
look_up-repeats rpc later pk none = refill-repeats rpc later pk none
look_up-repeats rpc later pk (some (held, nd)) = elim (Bool-cases (held == pk)) [
  | inl hit ↦ rw hit (inr (rw hit refl))
  | inr miss ↦ rw miss (refill-repeats rpc later pk (some (held, nd)))
]

-- After any look-ups and invalidations, one at a time and each look-up with a node of its own, a
-- look-up gives what the node answers now, or the data that the node gave for this account to an
-- earlier look-up with no invalidation since. If it gives data, the next look-up of the account
-- gives the same, whatever the node answers then.
pub cached_nonce_data-AnsweredSince :
    (history : List NonceCall) (rpc later : Rpc) (pk : Pubkey)
    → (((cached_nonce_data rpc pk (cache_after history)).1 ≡ fetch_nonce_data rpc pk)
        ⊎ ((nd : NonceData) × ((cached_nonce_data rpc pk (cache_after history)).1 ≡ some nd)
            × AnsweredSince pk nd history))
      × (((cached_nonce_data rpc pk (cache_after history)).1 ≡ none)
          ⊎ ((cached_nonce_data later pk (cache_after (look_up rpc pk ∷ history))).1
              ≡ (cached_nonce_data rpc pk (cache_after history)).1))
unfolding cache_after
cached_nonce_data-AnsweredSince history rpc later pk = (
  look_up-sources rpc pk (cache_after history) history (cache_after-IsAnswered history),
  look_up-repeats rpc later pk (cache_after history),
)
