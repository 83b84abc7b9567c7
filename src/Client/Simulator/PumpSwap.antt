-- ===== src/Client/Simulator/PumpSwap.antt =====
-- src/simulator/pumpswap/mod.rs: the PumpSwap instruction builders.
pub mod Routed
use solana_atomic_arbitrage.Base.{ℕ, Bool, true, false, List, [], ◌∷◌, ◌++◌, ◌/=◌, if◌then◌else◌}
use solana_atomic_arbitrage.Base.Bytes.{to_le_bytes}
use solana_atomic_arbitrage.Client.Constants
use solana_atomic_arbitrage.Client.Pda.{
  default_key, ata_addr, pumpswap_user_vol_accumulator, pumpswap_coin_creator_vault_authority,
  pumpswap_coin_creator_vault_ata, pumpswap_fee_config_pda, pumpswap_pool_v2_pda,
  pumpswap_user_vol_accumulator_quote_ata,
}
use solana_atomic_arbitrage.Client.Route.Sections.{push_if, system_program}
use solana_atomic_arbitrage.Router.Types.{
  Pubkey, AccountMeta, Instruction, Runtime, writable, readonly,
}

-- The arguments that the two builders share.
pub record PumpSwapKeys : Type 0 where
  pub user : Pubkey
  pub pool : Pubkey
  pub base_mint : Pubkey
  pub quote_mint : Pubkey
  pub user_base_ata : Pubkey
  pub user_quote_ata : Pubkey
  pub pool_base_ata : Pubkey
  pub pool_quote_ata : Pubkey
  pub base_token_program : Pubkey
  pub quote_token_program : Pubkey
  pub coin_creator : Pubkey
  pub is_cashback_coin : Bool
  pub buyback_recipient : Pubkey
  pub protocol_fee_recipient : Pubkey

module _ (rt : Runtime) (k : PumpSwapKeys) where
  -- The accounts 0 to 18 of both instructions.
  unfoldable pub shared_metas : List AccountMeta
  shared_metas =
      let fee_ata = ata_addr rt k.protocol_fee_recipient k.quote_mint k.quote_token_program in
      let authority = pumpswap_coin_creator_vault_authority rt k.coin_creator in
      let vault = pumpswap_coin_creator_vault_ata rt authority k.quote_mint k.quote_token_program in
      writable k.pool false
      ∷ writable k.user true
      ∷ readonly Constants.pumpswap_global_config false
      ∷ readonly k.base_mint false
      ∷ readonly k.quote_mint false
      ∷ writable k.user_base_ata false
      ∷ writable k.user_quote_ata false
      ∷ writable k.pool_base_ata false
      ∷ writable k.pool_quote_ata false
      ∷ readonly k.protocol_fee_recipient false
      ∷ writable fee_ata false
      ∷ readonly k.base_token_program false
      ∷ readonly k.quote_token_program false
      ∷ readonly system_program false
      ∷ readonly Constants.ata_program false
      ∷ readonly Constants.pumpswap_event_authority false
      ∷ readonly Constants.pumpfun_amm_program false
      ∷ writable vault false
      ∷ readonly authority false
      ∷ []

  -- The last remaining accounts of both.
  unfoldable pub buyback_metas : List AccountMeta
  buyback_metas =
      push_if (k.coin_creator /= default_key)
        (readonly (pumpswap_pool_v2_pda rt k.base_mint) false ∷ [])
      ++ readonly k.buyback_recipient false
        ∷ writable (ata_addr rt k.buyback_recipient k.quote_mint k.quote_token_program) false
        ∷ []

  abbrev cashback_meta : AccountMeta
  cashback_meta =
      writable
        (pumpswap_user_vol_accumulator_quote_ata rt k.user k.quote_mint k.quote_token_program) false

  unfoldable pub build_pumpswap_buy_ix : ℕ → ℕ → Bool → Instruction
  build_pumpswap_buy_ix spendable_quote_in min_base_amount_out track_volume = record {
    program_id = Constants.pumpfun_amm_program;
    accounts =
        (shared_metas
          ++ readonly Constants.pumpswap_global_volume_accumulator false
            ∷ writable (pumpswap_user_vol_accumulator rt k.user) false
            ∷ readonly (pumpswap_fee_config_pda rt) false
            ∷ readonly Constants.pumpswap_fee_program false
            ∷ [])
        ++ (push_if k.is_cashback_coin (cashback_meta ∷ []) ++ buyback_metas);
    bytes =
        Constants.pumpswap_buy_discriminator
        ++ (to_le_bytes 8 spendable_quote_in
            ++ (to_le_bytes 8 min_base_amount_out ++ (if track_volume then 1 else 0) ∷ []));
  }

  unfoldable pub build_pumpswap_sell_ix : ℕ → ℕ → Instruction
  build_pumpswap_sell_ix base_amount_in min_quote_amount_out = record {
    program_id = Constants.pumpfun_amm_program;
    accounts =
        (shared_metas
          ++ readonly (pumpswap_fee_config_pda rt) false
            ∷ readonly Constants.pumpswap_fee_program false
            ∷ [])
        ++ (push_if k.is_cashback_coin
              (cashback_meta ∷ writable (pumpswap_user_vol_accumulator rt k.user) false ∷ [])
            ++ buyback_metas);
    bytes =
        Constants.pumpswap_sell_discriminator
        ++ (to_le_bytes 8 base_amount_in ++ to_le_bytes 8 min_quote_amount_out);
  }
