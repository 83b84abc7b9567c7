-- ===== src/PoolCache/Pump.antt =====
-- src/pool_cache/bonding_curve/mod.rs and pda.rs: bonding curves and PumpSwap pools. The answer of the
-- HTTP service is a parameter, addresses are taken as parsed, locks are taken as free, and the stream
-- cache is given as it is when the pool is read.
pub mod Fetch
use solana_atomic_arbitrage.Base.{
  ℕ, ◌+◌, Bool, true, false, ◌&&◌, ◌||◌, not, List, [], ◌∷◌, Option, none, some, length, get_elem?,
  leb, ltb, ◌==◌, ◌/=◌, if◌then◌else◌,
}
use solana_atomic_arbitrage.Base.Bytes.{slice, from_le_bytes}
use solana_atomic_arbitrage.Base.Options.{◌>>=◌, ◌>>◌, none_if}
use solana_atomic_arbitrage.Client.Constants
use solana_atomic_arbitrage.Client.Pool.{key_at}
use solana_atomic_arbitrage.PoolCache.Dlmm.Fetch.{recent_or_node}
use solana_atomic_arbitrage.PoolCache.Entry.{CacheEntry, new, new_negative, age_secs}
use solana_atomic_arbitrage.PoolCache.Grpc.{GeyserPoolCache}
use solana_atomic_arbitrage.PoolCache.Node.{Account, Node}
use solana_atomic_arbitrage.Router.Types.{Pubkey, Runtime, as_ref}

abbrev pub pumpfun_reserve_ttl_secs : ℕ
pumpfun_reserve_ttl_secs = 10

pub data PumpVenueKind : Type 0 where
  bonding_curve : PumpVenueKind
  pump_swap_pool : PumpVenueKind

-- The creator is `none` where the code has the empty text.
pub record BondingCurveState : Type 0 where
  pub mint : Pubkey
  pub bonding_curve_address : Pubkey
  pub virtual_sol_reserves : ℕ
  pub virtual_token_reserves : ℕ
  pub real_sol_reserves : ℕ
  pub real_token_reserves : ℕ
  pub complete : Bool
  pub creator : Option Pubkey
  pub venue_kind : PumpVenueKind

abbrev read_u64_at : List ℕ → ℕ → ℕ
read_u64_at bytes off = from_le_bytes (slice bytes off 8)

-- `parse_token_amount` of pda.rs: 0 where the account is too short.
unfoldable pub token_amount : List ℕ → ℕ
token_amount bytes = if ltb (length bytes) 72 then 0 else read_u64_at bytes 64

-- The amount of a vault, 0 where the call fails.
abbrev vault_amount : Option Account → ℕ
vault_amount vault = elim vault [ none ↦ 0 | some a ↦ token_amount a.bytes ]

-- `base_vault_mint == sol_mint`
abbrev holds_sol : Option Account → Bool
holds_sol vault = elim vault [
  | none ↦ false
  | some a ↦ key_at a.bytes 0 == Constants.native_sol_mint
]

-- `read_pumpswap_pool`, given the pool's data and its two vaults.
unfoldable pub pool_state :
    Pubkey → Pubkey → Option Account → Option Account → Option BondingCurveState
pool_state pool meme_mint base_res quote_res = do
  let base_amount = vault_amount base_res
  let quote_amount = vault_amount quote_res
  none_if ((base_amount == 0) || (quote_amount == 0))
  none_if (not (holds_sol base_res) && not (holds_sol quote_res))
  let sol_reserves = if holds_sol base_res then base_amount else quote_amount
  let token_reserves = if holds_sol base_res then quote_amount else base_amount
  some (record {
    mint = meme_mint;
    bonding_curve_address = pool;
    virtual_sol_reserves = sol_reserves;
    virtual_token_reserves = token_reserves;
    real_sol_reserves = sol_reserves;
    real_token_reserves = token_reserves;
    complete = true;
    creator = none;
    venue_kind = pump_swap_pool;
  })

unfoldable pub read_pumpswap_pool :
    GeyserPoolCache → Node → Pubkey → Pubkey → Option BondingCurveState
read_pumpswap_pool c node pool meme_mint = do
  bytes ← recent_or_node c node pool
  none_if (ltb (length bytes) 203)
  pool_state pool meme_mint (node.get_account (key_at bytes 139))
      (node.get_account (key_at bytes 171))

unfoldable pub fetch_pumpswap_reserves_fresh :
    GeyserPoolCache → Node → Pubkey → Pubkey → Option (ℕ × ℕ)
fetch_pumpswap_reserves_fresh c node pool meme_mint = do
  state ← read_pumpswap_pool c node pool meme_mint
  some (state.virtual_sol_reserves, state.virtual_token_reserves)

-- `data[48] != 0`
abbrev byte_set : List ℕ → ℕ → Bool
byte_set bytes i = elim (get_elem? bytes i) [ none ↦ false | some b ↦ b /= 0 ]

-- The state of a bonding curve account of at least 49 bytes.
unfoldable pub curve_state : Pubkey → Pubkey → List ℕ → BondingCurveState
curve_state address mint bytes = record {
  mint = mint;
  bonding_curve_address = address;
  virtual_sol_reserves = read_u64_at bytes 16;
  virtual_token_reserves = read_u64_at bytes 8;
  real_sol_reserves = read_u64_at bytes 32;
  real_token_reserves = read_u64_at bytes 24;
  complete = byte_set bytes 48;
  creator = if leb 81 (length bytes) then some (key_at bytes 49) else none;
  venue_kind = bonding_curve;
}

unfoldable pub read_bonding_curve_at : Node → Pubkey → Pubkey → Option BondingCurveState
read_bonding_curve_at node address mint = do
  account ← node.get_account address
  none_if (ltb (length account.bytes) 49)
  some (curve_state address mint account.bytes)

-- PUMP_SWAP_POOL_ADDR_CACHE and BONDING_CURVE_CACHE.
abbrev pub AddrCache : Type 0
AddrCache = Pubkey → Option Pubkey

abbrev pub CurveCache : Type 0
CurveCache = Pubkey → Option (CacheEntry (Option BondingCurveState))

unfoldable pub insert_addr : Pubkey → Pubkey → AddrCache → AddrCache
insert_addr mint pool cache = λ k. if k == mint then some pool else cache k

unfoldable pub insert_curve :
    Pubkey → CacheEntry (Option BondingCurveState) → CurveCache → CurveCache
insert_curve mint entry cache = λ k. if k == mint then some entry else cache k

-- The pool address that the bonding curve cache has for a mint, fresh or not.
unfoldable pub curve_cache_address : CurveCache → Pubkey → Option Pubkey
curve_cache_address curves mint = do
  entry ← curves mint
  state ← entry.value
  elim state.venue_kind [ bonding_curve ↦ none | pump_swap_pool ↦ some state.bonding_curve_address ]

unfoldable pub get_pumpswap_pool_address :
    Pubkey → CurveCache → AddrCache → AddrCache × Option Pubkey
get_pumpswap_pool_address mint curves addrs = elim (addrs mint) [
  | some addr ↦ (addrs, some addr)
  | none ↦ elim (curve_cache_address curves mint) [
    | some pk ↦ (insert_addr mint pk addrs, some pk)
    | none ↦ (addrs, none)
  ]
]

-- "bonding-curve", "pool" and "global"
abbrev bonding_curve_seed : List ℕ
bonding_curve_seed = 98 ∷ 111 ∷ 110 ∷ 100 ∷ 105 ∷ 110 ∷ 103 ∷ 45 ∷ 99 ∷ 117 ∷ 114 ∷ 118 ∷ 101 ∷ []

abbrev pool_seed : List ℕ
pool_seed = 112 ∷ 111 ∷ 111 ∷ 108 ∷ []

abbrev global_seed : List ℕ
global_seed = 103 ∷ 108 ∷ 111 ∷ 98 ∷ 97 ∷ 108 ∷ []

abbrev pub bonding_curve_pda : Runtime → Pubkey → Pubkey
bonding_curve_pda rt mint =
    rt.find_program_address (bonding_curve_seed ∷ as_ref mint ∷ [])
      Constants.pumpfun_bonding_curve_program

abbrev pool_pda : Runtime → Pubkey → Pubkey → Pubkey
pool_pda rt creator mint =
    rt.find_program_address
      (pool_seed
        ∷ (0 ∷ 0 ∷ [])
        ∷ as_ref creator
        ∷ as_ref mint
        ∷ as_ref Constants.native_sol_mint
        ∷ [])
      Constants.pumpfun_amm_program

-- The slow path: the pool derived from the creator that the bonding curve names.
unfoldable pub derived_pool : Runtime → Node → Pubkey → Option Pubkey
derived_pool rt node mint = do
  account ← node.get_account (bonding_curve_pda rt mint)
  none_if (ltb (length account.bytes) 81)
  some (pool_pda rt (key_at account.bytes 49) mint)

unfoldable pub resolve_pumpswap_pool_address :
    Runtime → Node → Pubkey → CurveCache → AddrCache → AddrCache × Option Pubkey
resolve_pumpswap_pool_address rt node mint curves addrs =
    let (addrs', cached) = get_pumpswap_pool_address mint curves addrs in
    elim cached [
      | some addr ↦ (addrs', some addr)
      | none ↦ elim (derived_pool rt node mint) [
        | none ↦ (addrs', none)
        | some pool ↦ (insert_addr mint pool addrs', some pool)
      ]
    ]

-- The fee recipient of the first program whose global account is long enough.
unfoldable pub fee_recipient_of : Runtime → Node → List Pubkey → Option Pubkey
fee_recipient_of rt node [] = none
fee_recipient_of rt node (program ∷ programs) =
    let rest = fee_recipient_of rt node programs in
    elim (node.get_account (rt.find_program_address (global_seed ∷ []) program)) [
      | none ↦ rest
      | some a ↦ if leb 73 (length a.bytes) then some (key_at a.bytes 41) else rest
    ]

unfoldable pub fetch_pumpfun_fee_recipient : Runtime → Node → Option Pubkey
fetch_pumpfun_fee_recipient rt node =
    fee_recipient_of rt node
      (Constants.pumpfun_amm_program ∷ Constants.pumpfun_bonding_curve_program ∷ [])
