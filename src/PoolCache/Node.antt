-- ===== src/PoolCache/Node.antt =====
-- The RPC node as the caches use it, and the parsers of the account data that they read
-- (src/pool_cache/types.rs, dlmm/mod.rs).
use solana_atomic_arbitrage.Base.{
  ℕ, ◌+◌, Bool, true, List, [], ◌∷◌, Option, none, some, length, get_elem?, ltb, ◌==◌, ◌||◌,
  if◌then◌else◌,
}
use solana_atomic_arbitrage.Base.Bytes.{slice, from_le_bytes}
use solana_atomic_arbitrage.Client.Pool.{key_at}
use solana_atomic_arbitrage.Router.Types.{Pubkey}

pub record Account : Type 0 where
  pub owner : Pubkey
  pub bytes : List ℕ

-- `get_account` and `get_multiple_accounts`; `none` is a failed call. A call of many accounts
-- returns one optional account for each key.
pub record Node : Type 0 where
  pub get_account : Pubkey → Option Account
  pub get_multiple_accounts : List Pubkey → Option (List (Option Account))

unfoldable pub parse_token_amount : List ℕ → Option ℕ
parse_token_amount bytes =
    if ltb (length bytes) 72 then none else some (from_le_bytes (slice bytes 64 8))

-- A tag of 0, or a byte out of range.
abbrev no_tag : List ℕ → ℕ → Bool
no_tag bytes offset = elim (get_elem? bytes offset) [ none ↦ true | some tag ↦ tag == 0 ]

unfoldable pub parse_optional_pubkey : List ℕ → ℕ → Option Pubkey
parse_optional_pubkey bytes offset =
    if ltb (length bytes) (offset + 1) || no_tag bytes offset
    then none
    else if ltb (length bytes) (offset + 33)
    then none
    else some (key_at bytes (offset + 1))

-- `accts.get(i).and_then(|a| a.as_ref()).and_then(|a| parse_token_amount(&a.data)).unwrap_or(0)`
unfoldable pub amount_at : List (Option Account) → ℕ → ℕ
amount_at accounts i = elim (get_elem? accounts i) [
  | none ↦ 0
  | some none ↦ 0
  | some (some a) ↦ elim (parse_token_amount a.bytes) [ none ↦ 0 | some n ↦ n ]
]

-- The balances of two vaults, 0 where a call or a parse fails.
unfoldable pub vault_balances : Node → Pubkey → Pubkey → ℕ × ℕ
vault_balances node vault_0 vault_1 = elim (node.get_multiple_accounts (vault_0 ∷ vault_1 ∷ [])) [
  | none ↦ (0, 0)
  | some accounts ↦ (amount_at accounts 0, amount_at accounts 1)
]
