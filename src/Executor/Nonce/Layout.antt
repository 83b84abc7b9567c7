-- ===== src/Executor/Nonce/Layout.antt =====
-- src/executor/nonce.rs: the layout of the nonce account that its comment gives.
use solana_atomic_arbitrage.Base.{
  ℕ, ◌^◌, ◌<◌, ◌≤◌, ◌≡◌, List, ◌++◌, false, some, length, ltb, drop-append, take-append, take, drop,
  length-append, arith,
}
use solana_atomic_arbitrage.Base.Bytes.{
  slice, to_le_bytes, from_le_bytes, from_le_bytes-to_le_bytes,
}
use solana_atomic_arbitrage.Executor.Nonce.{parse}

-- A part of the bytes behind a head of known length.
pub slice-append :
    (head part tail : List ℕ) → slice (head ++ (part ++ tail)) (length head) (length part) ≡ part
slice-append head part tail = rw (drop-append head (part ++ tail)) (take-append part tail)

-- Version, state, the authority's key of which the first 8 bytes are the value, the hash, the fee.
abbrev pub account_bytes : ℕ → ℕ → ℕ → List ℕ → List ℕ → List ℕ → List ℕ
account_bytes version state value key_rest blockhash fee =
    (to_le_bytes 4 version ++ (to_le_bytes 4 state ++ (to_le_bytes 8 value ++ key_rest)))
    ++ (blockhash ++ fee)

-- From a nonce account of version 1 and state 1 the parser reads back the 64-bit value that the
-- first eight bytes of the authority's key spell, and the 32-byte blockhash.
pub parse-account_bytes :
    (value : ℕ) (key_rest blockhash fee : List ℕ)
    → value < 256 ^ 8
    → length key_rest ≡ 24
    → length blockhash ≡ 32
    → 8 ≤ length fee
    → parse (account_bytes 1 1 value key_rest blockhash fee)
      ≡ some (record { blockhash = blockhash; nonce_value = value })
unfolding parse from_le_bytes to_le_bytes
parse-account_bytes value key_rest blockhash fee hv hk hb hf =
    rw long (λ i. some (record { blockhash = hash i; nonce_value = number i }))
  where
    long : ltb (length (account_bytes 1 1 value key_rest blockhash fee)) 80 ≡ false
    long = ground (arith, length-append key_rest (blockhash ++ fee), length-append blockhash fee)

    hash : take 32 (drop 24 (key_rest ++ (blockhash ++ fee))) ≡ blockhash
    hash = rw (← hk) (rw (← hb) (slice-append key_rest blockhash fee))

    number : from_le_bytes (to_le_bytes 8 value) ≡ value
    number = from_le_bytes-to_le_bytes 8 value hv
