-- ===== src/Client/Route/Sections.antt =====
-- src/executor/atomic/onchain_router.rs, the shared account builders, and the counts of remaining
-- accounts that go into the instruction data.
use solana_atomic_arbitrage.Base.{
  ℕ, ◌+◌, Bool, true, false, List, [], ◌∷◌, ◌++◌, map, ◌/=◌, if◌then◌else◌,
}
use solana_atomic_arbitrage.Client.Constants
use solana_atomic_arbitrage.Client.Pda.{
  default_key, ata_addr, pumpswap_user_vol_accumulator, pumpswap_coin_creator_vault_authority,
  pumpswap_coin_creator_vault_ata, pumpswap_fee_config_pda, pumpswap_pool_v2_pda,
  pumpswap_user_vol_accumulator_quote_ata,
}
use solana_atomic_arbitrage.Client.Pool.{PumpSwapPoolMeta, pick_pumpswap_protocol_fee_recipient}
use solana_atomic_arbitrage.Router.Types.{Pubkey, AccountMeta, Runtime, writable, readonly}

-- The keys that all the builders take.
pub record RouteKeys : Type 0 where
  pub user : Pubkey
  pub user_sol_ata : Pubkey
  pub user_meme_ata : Pubkey
  pub meme_mint : Pubkey
  pub sol_mint : Pubkey
  pub base_token_program : Pubkey
  pub quote_token_program : Pubkey
  pub pool : Pubkey

abbrev pub system_program : Pubkey
system_program = 0

-- `if b { accounts.push(..) }`
abbrev pub push_if : Bool → List AccountMeta → List AccountMeta
push_if b metas = if b then metas else []

module _ (rt : Runtime) (k : RouteKeys) (pool_meta : PumpSwapPoolMeta) where
  -- Slots 0 to 18, which the two sections share.
  unfoldable pub common_accounts : List AccountMeta
  common_accounts =
      let recipient = pick_pumpswap_protocol_fee_recipient pool_meta.is_mayhem_mode in
      let fee_ata = ata_addr rt recipient k.sol_mint k.quote_token_program in
      let authority = pumpswap_coin_creator_vault_authority rt pool_meta.coin_creator in
      let vault = pumpswap_coin_creator_vault_ata rt authority k.sol_mint k.quote_token_program in
      writable k.pool false
      ∷ writable k.user true
      ∷ readonly Constants.pumpswap_global_config false
      ∷ readonly k.meme_mint false
      ∷ readonly k.sol_mint false
      ∷ writable k.user_meme_ata false
      ∷ writable k.user_sol_ata false
      ∷ writable pool_meta.pool_base_token_account false
      ∷ writable pool_meta.pool_quote_token_account false
      ∷ readonly recipient false
      ∷ writable fee_ata false
      ∷ readonly k.base_token_program false
      ∷ readonly k.quote_token_program false
      ∷ readonly system_program false
      ∷ readonly Constants.ata_program false
      ∷ readonly Constants.pumpswap_event_authority false
      ∷ readonly Constants.pumpfun_amm_program false
      ∷ writable vault false
      ∷ readonly authority false
      ∷ []

  unfoldable pub buy_fixed : List AccountMeta
  buy_fixed =
      common_accounts
      ++ readonly Constants.pumpswap_global_volume_accumulator false
        ∷ writable (pumpswap_user_vol_accumulator rt k.user) false
        ∷ readonly (pumpswap_fee_config_pda rt) false
        ∷ readonly Constants.pumpswap_fee_program false
        ∷ []

  unfoldable pub sell_fixed : List AccountMeta
  sell_fixed =
      common_accounts
      ++ readonly (pumpswap_fee_config_pda rt) false
        ∷ readonly Constants.pumpswap_fee_program false
        ∷ []

  abbrev cashback_ata : AccountMeta
  cashback_ata =
      writable (pumpswap_user_vol_accumulator_quote_ata rt k.user k.sol_mint k.quote_token_program)
        false

  -- The PDA of a pool with a creator, and the buyback accounts.
  abbrev creator_and_buyback : List AccountMeta
  creator_and_buyback =
      let recipient = Constants.pumpswap_buyback_fee_recipient in
      push_if (pool_meta.coin_creator /= default_key)
        (readonly (pumpswap_pool_v2_pda rt k.meme_mint) false ∷ [])
      ++ readonly recipient false
        ∷ writable (ata_addr rt recipient k.sol_mint k.quote_token_program) false
        ∷ []

  unfoldable pub buy_remaining : List AccountMeta
  buy_remaining = push_if pool_meta.is_cashback_coin (cashback_ata ∷ []) ++ creator_and_buyback

  unfoldable pub sell_remaining : List AccountMeta
  sell_remaining =
      push_if pool_meta.is_cashback_coin
        (cashback_ata ∷ writable (pumpswap_user_vol_accumulator rt k.user) false ∷ [])
      ++ creator_and_buyback

  unfoldable pub push_pumpswap_buy_accounts : List AccountMeta → List AccountMeta
  push_pumpswap_buy_accounts accounts = accounts ++ (buy_fixed ++ buy_remaining)

  unfoldable pub push_pumpswap_sell_accounts : List AccountMeta → List AccountMeta
  push_pumpswap_sell_accounts accounts = accounts ++ (sell_fixed ++ sell_remaining)

unfoldable pub pumpswap_buy_remaining_count : PumpSwapPoolMeta → ℕ
pumpswap_buy_remaining_count pool_meta =
    2
    + (if pool_meta.is_cashback_coin then 1 else 0)
    + (if pool_meta.coin_creator /= default_key then 1 else 0)

unfoldable pub pumpswap_sell_remaining_count : PumpSwapPoolMeta → ℕ
pumpswap_sell_remaining_count pool_meta =
    2
    + (if pool_meta.is_cashback_coin then 2 else 0)
    + (if pool_meta.coin_creator /= default_key then 1 else 0)

-- The nine fixed accounts of a DLMM section.
pub record DlmmKeys : Type 0 where
  pub dlmm_program : Pubkey
  pub lb_pair : Pubkey
  pub bitmap : Pubkey
  pub reserve_x : Pubkey
  pub reserve_y : Pubkey
  pub oracle : Pubkey
  pub host_fee : Pubkey
  pub memo_program : Pubkey
  pub event_auth : Pubkey

unfoldable pub dlmm_fixed : DlmmKeys → List AccountMeta
dlmm_fixed d =
    readonly d.dlmm_program false
    ∷ writable d.lb_pair false
    ∷ writable d.bitmap false
    ∷ writable d.reserve_x false
    ∷ writable d.reserve_y false
    ∷ writable d.oracle false
    ∷ writable d.host_fee false
    ∷ readonly d.memo_program false
    ∷ readonly d.event_auth false
    ∷ []

abbrev pub writable_all : List Pubkey → List AccountMeta
writable_all keys = map (λ key. writable key false) keys

unfoldable pub push_dlmm_accounts : DlmmKeys → List Pubkey → List AccountMeta → List AccountMeta
push_dlmm_accounts d bin_arrays accounts = accounts ++ (dlmm_fixed d ++ writable_all bin_arrays)
