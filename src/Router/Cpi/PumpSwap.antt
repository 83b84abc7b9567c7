-- ===== src/Router/Cpi/PumpSwap.antt =====
-- programs/arbitrage/src/cpi/pump_swap.rs: `buy_exact_quote_in` and `sell`.
use solana_atomic_arbitrage.Base.{
  ℕ, ◌+◌, Bool, true, false, List, [], ◌∷◌, ◌++◌, Option, none, some, set, if◌then◌else◌,
}
use solana_atomic_arbitrage.Base.Bytes.{to_le_bytes}
use solana_atomic_arbitrage.Router.Constants
use solana_atomic_arbitrage.Router.Types.{
  AccountInfo, AccountMeta, Instruction, Result, ok, ◌>>=◌, account, writable,
}
use solana_atomic_arbitrage.Router.Results.{Safe, safe_ok}
use solana_atomic_arbitrage.Router.Cpi.Metas.{build_meta, remaining_metas}

abbrev pub buy_slots : List (ℕ × Bool)
buy_slots =
    (Constants.pump_buy_pool, true)
    ∷ (Constants.pump_buy_user, true)
    ∷ (Constants.pump_buy_global_config, false)
    ∷ (Constants.pump_buy_base_mint, false)
    ∷ (Constants.pump_buy_quote_mint, false)
    ∷ (Constants.pump_buy_user_base_ata, true)
    ∷ (Constants.pump_buy_user_quote_ata, true)
    ∷ (Constants.pump_buy_pool_base_ata, true)
    ∷ (Constants.pump_buy_pool_quote_ata, true)
    ∷ (Constants.pump_buy_protocol_fee_recipient, false)
    ∷ (Constants.pump_buy_protocol_fee_ata, true)
    ∷ (Constants.pump_buy_base_token_program, false)
    ∷ (Constants.pump_buy_quote_token_program, false)
    ∷ (Constants.pump_buy_system_program, false)
    ∷ (Constants.pump_buy_ata_program, false)
    ∷ (Constants.pump_buy_event_authority, false)
    ∷ (Constants.pump_buy_program, false)
    ∷ (Constants.pump_buy_coin_creator_vault_ata, true)
    ∷ (Constants.pump_buy_coin_creator_vault_auth, false)
    ∷ (Constants.pump_buy_global_vol_accum, false)
    ∷ (Constants.pump_buy_user_vol_accum, true)
    ∷ (Constants.pump_buy_fee_config, false)
    ∷ (Constants.pump_buy_fee_program, false)
    ∷ []

abbrev pub sell_slots : List (ℕ × Bool)
sell_slots =
    (Constants.pump_sell_pool, true)
    ∷ (Constants.pump_sell_user, true)
    ∷ (Constants.pump_sell_global_config, false)
    ∷ (Constants.pump_sell_base_mint, false)
    ∷ (Constants.pump_sell_quote_mint, false)
    ∷ (Constants.pump_sell_user_base_ata, true)
    ∷ (Constants.pump_sell_user_quote_ata, true)
    ∷ (Constants.pump_sell_pool_base_ata, true)
    ∷ (Constants.pump_sell_pool_quote_ata, true)
    ∷ (Constants.pump_sell_protocol_fee_recipient, false)
    ∷ (Constants.pump_sell_protocol_fee_ata, true)
    ∷ (Constants.pump_sell_base_token_program, false)
    ∷ (Constants.pump_sell_quote_token_program, false)
    ∷ (Constants.pump_sell_system_program, false)
    ∷ (Constants.pump_sell_ata_program, false)
    ∷ (Constants.pump_sell_event_authority, false)
    ∷ (Constants.pump_sell_program, false)
    ∷ (Constants.pump_sell_coin_creator_vault_ata, true)
    ∷ (Constants.pump_sell_coin_creator_vault_auth, false)
    ∷ (Constants.pump_sell_fee_config, false)
    ∷ (Constants.pump_sell_fee_program, false)
    ∷ []

-- `meta[5] = AccountMeta::new(...)` where the caller names another base-token account.
unfoldable pub override_base_ata :
    List AccountInfo → Option ℕ → List AccountMeta → Result (List AccountMeta)
override_base_ata accounts none meta = ok meta
override_base_ata accounts (some idx) meta = do
  a ← account accounts idx
  ok (set meta 5 (writable a.key a.is_signer))

abbrev flag_byte : Bool → ℕ
flag_byte b = if b then 1 else 0

unfoldable pub build_buy : List AccountInfo → ℕ → ℕ → ℕ → ℕ → Bool → Option ℕ → Result Instruction
build_buy accounts pump_base count amount_in min_amount_out track_volume user_base_ata = do
  fixed ← build_meta accounts pump_base buy_slots
  fixed' ← override_base_ata accounts user_base_ata fixed
  rest ← remaining_metas accounts (pump_base + Constants.pump_buy_fixed_len) count
  program ← account accounts (pump_base + Constants.pump_buy_program)
  ok (record {
    program_id = program.key;
    accounts = fixed' ++ rest;
    bytes =
        Constants.pump_buy_disc
        ++ (to_le_bytes 8 amount_in
            ++ (to_le_bytes 8 min_amount_out ++ flag_byte track_volume ∷ []));
  })

unfoldable pub build_sell : List AccountInfo → ℕ → ℕ → ℕ → ℕ → Option ℕ → Result Instruction
build_sell accounts pump_base count amount_in min_amount_out user_base_ata = do
  fixed ← build_meta accounts pump_base sell_slots
  fixed' ← override_base_ata accounts user_base_ata fixed
  rest ← remaining_metas accounts (pump_base + Constants.pump_sell_fixed_len) count
  program ← account accounts (pump_base + Constants.pump_sell_program)
  ok (record {
    program_id = program.key;
    accounts = fixed' ++ rest;
    bytes = Constants.pump_sell_disc ++ (to_le_bytes 8 amount_in ++ to_le_bytes 8 min_amount_out);
  })

pub override_base_ata-Safe :
    (accounts : List AccountInfo) (meta : List AccountMeta)
    → Safe (override_base_ata accounts none meta)
unfolding override_base_ata
override_base_ata-Safe accounts meta = safe_ok meta
