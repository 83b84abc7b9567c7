-- ===== src/Client/Pool.antt =====
-- src/simulator/pumpswap/state.rs: the pool metadata that the client reads from a pool account; and
-- the fee recipient it picks (src/executor/atomic/helpers.rs).
use solana_atomic_arbitrage.Base.{
  ℕ, Bool, false, ◌&&◌, List, [], ◌∷◌, ◌+◌, ◌*◌, Option, none, some, length, get_elem?, ltb, leb,
  ◌/=◌, if◌then◌else◌,
}
use solana_atomic_arbitrage.Base.Bytes.{slice}
use solana_atomic_arbitrage.Client.Constants
use solana_atomic_arbitrage.Client.Pda.{default_key}
use solana_atomic_arbitrage.Router.Types.{Pubkey}

pub record PumpSwapPoolMeta : Type 0 where
  pub coin_creator : Pubkey
  pub is_mayhem_mode : Bool
  pub is_cashback_coin : Bool
  pub pool_base_token_account : Pubkey
  pub pool_quote_token_account : Pubkey

-- Bytes as a key: `Pubkey::new_from_array`, highest byte first.
unfoldable pub from_be_bytes : List ℕ → ℕ → Pubkey
from_be_bytes [] acc = acc
from_be_bytes (b ∷ bs) acc = from_be_bytes bs (256 * acc + b)

abbrev pub key_at : List ℕ → ℕ → Pubkey
key_at bytes off = from_be_bytes (slice bytes off 32) 0

-- `data[i] != 0`, where the index is in range.
abbrev byte_set : List ℕ → ℕ → Bool
byte_set bytes i = elim (get_elem? bytes i) [ some b ↦ b /= 0 | none ↦ false ]

unfoldable pub parse_pumpswap_pool_meta : List ℕ → Option PumpSwapPoolMeta
parse_pumpswap_pool_meta bytes =
    if ltb (length bytes) 203
    then none
    else some (record {
      coin_creator = if leb 243 (length bytes) then key_at bytes 211 else default_key;
      is_mayhem_mode = leb 244 (length bytes) && byte_set bytes 243;
      is_cashback_coin = leb 245 (length bytes) && byte_set bytes 244;
      pool_base_token_account = key_at bytes 139;
      pool_quote_token_account = key_at bytes 171;
    })

abbrev first_key : List Pubkey → Pubkey
first_key [] = default_key
first_key (k ∷ ks) = k

abbrev pub pick_pumpswap_protocol_fee_recipient : Bool → Pubkey
pick_pumpswap_protocol_fee_recipient is_mayhem_mode =
    if is_mayhem_mode
    then first_key Constants.pumpswap_reserved_fee_recipients
    else first_key Constants.pumpswap_protocol_fee_recipients
