-- ===== src/PoolCache/AmmV4.antt =====
-- src/pool_cache/ammv4.rs: the parse of an AMM v4 pool account, found by its two mints. The two mints
-- are their 32 bytes. A slice out of range, or an index below zero, panics.
use solana_atomic_arbitrage.Base.{
  ℕ, ◌+◌, ◌-◌, Bool, true, false, ◌&&◌, ◌||◌, not, List, [], ◌∷◌, Option, none, some, length, take,
  leb, ltb, ◌==◌, if◌then◌else◌,
}
use solana_atomic_arbitrage.Base.Bytes.{slice}
use solana_atomic_arbitrage.Client.Pool.{key_at}
use solana_atomic_arbitrage.PoolCache.Queries.{AmmV4PoolInfo}
use solana_atomic_arbitrage.Router.Types.{Pubkey}

unfoldable pub same_bytes : List ℕ → List ℕ → Bool
same_bytes [] [] = true
same_bytes (a ∷ as') (b ∷ bs) = (a == b) && same_bytes as' bs
same_bytes _ _ = false

-- `data.windows(32).position(..)` from place `i` on.
unfoldable pub position_from : ℕ → List ℕ → List ℕ → Option ℕ
position_from i [] key = none
position_from i (b ∷ bs) key =
    let rest = position_from (i + 1) bs key in
    if leb 32 (length (b ∷ bs)) && same_bytes (take 32 (b ∷ bs)) key then some i else rest

abbrev position : List ℕ → List ℕ → Option ℕ
position bytes key = position_from 0 bytes key

-- `Some`, `None`, or a panic.
pub data Parsed {ℓ} (A : Type ℓ) : Type ℓ where
  found : A → Parsed A
  not_found : Parsed A
  panicked : Parsed A

-- The fields around the coin mint at `pos`.
unfoldable pub info_at : List ℕ → Pubkey → ℕ → AmmV4PoolInfo
info_at bytes pool_address pos = record {
  pool_address = pool_address;
  coin_mint = key_at bytes pos;
  pc_mint = key_at bytes (pos + 32);
  coin_vault = key_at bytes (pos - 64);
  pc_vault = key_at bytes (pos - 32);
  open_orders = key_at bytes (pos + 96);
  target_orders = key_at bytes (pos + 128);
  market = key_at bytes (pos + 160);
  market_program = key_at bytes (pos + 192);
}

unfoldable pub parse_ammv4_with_mints : List ℕ → List ℕ → List ℕ → Pubkey → Parsed AmmV4PoolInfo
parse_ammv4_with_mints bytes coin_mint pc_mint pool_address = elim (position bytes coin_mint) [
  | none ↦ not_found
  | some pos ↦
      if ltb (length bytes) (pos + 64) || not (same_bytes (slice bytes (pos + 32) 32) pc_mint)
      then not_found
      else if ltb pos 64 || ltb (length bytes) (pos + 224)
      then panicked
      else found (info_at bytes pool_address pos)
]

unfoldable pub parse_ammv4_full_state : List ℕ → List ℕ → List ℕ → Pubkey → Parsed AmmV4PoolInfo
parse_ammv4_full_state bytes mint_a mint_b pool_address =
    let swapped = parse_ammv4_with_mints bytes mint_b mint_a pool_address in
    elim (parse_ammv4_with_mints bytes mint_a mint_b pool_address) [
      | found info ↦ found info
      | not_found ↦ swapped
      | panicked ↦ panicked
    ]

-- The case that the mint at `pos` is the coin mint.
unfoldable pub vaults_of_coin : List ℕ → List ℕ → ℕ → Option (Pubkey × Pubkey)
vaults_of_coin bytes mint_b pos =
    if leb 64 pos
      && (ltb (pos + 32) (length bytes - 32) && same_bytes (slice bytes (pos + 32) 32) mint_b)
    then some (key_at bytes (pos - 64), key_at bytes (pos - 32))
    else none

-- The case that it is the other mint.
unfoldable pub vaults_of_pc : List ℕ → List ℕ → ℕ → Option (Pubkey × Pubkey)
vaults_of_pc bytes mint_b pos =
    if (leb 32 pos && leb (pos + 32) (length bytes - 32))
      && (same_bytes (slice bytes (pos - 32) 32) mint_b && leb 96 pos)
    then some (key_at bytes (pos - 96), key_at bytes (pos - 64))
    else none

unfoldable pub find_vaults_in_pool_data : List ℕ → List ℕ → List ℕ → Option (Pubkey × Pubkey)
find_vaults_in_pool_data bytes mint_a mint_b = elim (position bytes mint_a) [
  | none ↦ none
  | some pos ↦ elim (vaults_of_coin bytes mint_b pos) [
    | some vaults ↦ some vaults
    | none ↦ vaults_of_pc bytes mint_b pos
  ]
]
