-- ===== src/Executor/Nonce.antt =====
-- src/executor/nonce.rs: the durable nonce account and its cache. A hash is its 32 bytes; the RPC
-- node is an argument: the account data that it returns, or nothing when the call fails.
-- A look-up that misses takes the lock twice, around its call of the node; it is one step here.
pub mod Cache
pub mod Layout
use solana_atomic_arbitrage.Base.{
  ℕ, true, false, List, [], ◌∷◌, Option, none, some, length, ltb, ◌/=◌, ◌==◌, ◌||◌, if◌then◌else◌,
}
use solana_atomic_arbitrage.Base.Bytes.{slice, from_le_bytes}
use solana_atomic_arbitrage.Base.Options.{◌>>=◌}
use solana_atomic_arbitrage.Router.Types.{Pubkey, Instruction, writable, readonly}

abbrev pub nonce_account_size : ℕ
nonce_account_size = 80

pub record NonceData : Type 0 where
  pub blockhash : List ℕ
  pub nonce_value : ℕ

-- `NonceData::parse`; the conversions of slices to arrays cannot fail behind the length test.
unfoldable pub parse : List ℕ → Option NonceData
parse bytes =
    if ltb (length bytes) nonce_account_size
    then none
    else if (from_le_bytes (slice bytes 0 4) /= 1) || (from_le_bytes (slice bytes 4 4) /= 1)
    then none
    else some
        (record { blockhash = slice bytes 40 32; nonce_value = from_le_bytes (slice bytes 8 8) })

-- `RpcClient::get_account`, the data of an account.
abbrev pub Rpc : Type 0
Rpc = Pubkey → Option (List ℕ)

unfoldable pub fetch_nonce_data : Rpc → Pubkey → Option NonceData
fetch_nonce_data get_account nonce_account = do account ← get_account nonce_account; parse account

-- The static NONCE_CACHE.
abbrev pub NonceCache : Type 0
NonceCache = Option (Pubkey × NonceData)

-- The branch of a cache miss.
unfoldable pub refill : Rpc → Pubkey → NonceCache → NonceCache × Option NonceData
refill get_account nonce_account cache = elim (fetch_nonce_data get_account nonce_account) [
  | none ↦ (cache, none)
  | some nd ↦ (some (nonce_account, nd), some nd)
]

unfoldable pub cached_nonce_data : Rpc → Pubkey → NonceCache → NonceCache × Option NonceData
cached_nonce_data get_account nonce_account none = refill get_account nonce_account none
cached_nonce_data get_account nonce_account (some (pk, nd)) =
    if pk == nonce_account
    then (some (pk, nd), some nd)
    else refill get_account nonce_account (some (pk, nd))

unfoldable pub invalidate_nonce_cache : NonceCache → NonceCache
invalidate_nonce_cache cache = none

abbrev pub system_program : Pubkey
system_program = 0

-- The `SysvarRecentB1ockHashes` address.
abbrev pub recent_blockhashes : Pubkey
recent_blockhashes = 0x6a7d517192c568ee08a845f73d29788cf035c3145b21ab344d8062ea9400000

unfoldable pub build_advance_nonce_ix : Pubkey → Pubkey → Instruction
build_advance_nonce_ix nonce_account authority = record {
  program_id = system_program;
  accounts =
      writable nonce_account false
      ∷ readonly recent_blockhashes false
      ∷ readonly authority true
      ∷ [];
  bytes = 4 ∷ 0 ∷ 0 ∷ 0 ∷ [];
}
