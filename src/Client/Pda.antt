-- ===== src/Client/Pda.antt =====
-- src/simulator/pumpswap/mod.rs and src/simulator/mod.rs: the derived addresses of a PumpSwap pool
-- as the client computes them.
use solana_atomic_arbitrage.Base.{ℕ, List, [], ◌∷◌}
use solana_atomic_arbitrage.Client.Constants
use solana_atomic_arbitrage.Router.Types.{Pubkey, Runtime, as_ref}

-- "user_volume_accumulator"
abbrev user_volume_seed : List ℕ
user_volume_seed =
    117 ∷ 115 ∷ 101 ∷ 114 ∷ 95 ∷ 118 ∷ 111 ∷ 108 ∷ 117 ∷ 109 ∷ 101 ∷ 95 ∷ 97 ∷ 99 ∷ 99 ∷ 117 ∷ 109
    ∷ 117 ∷ 108 ∷ 97 ∷ 116 ∷ 111 ∷ 114 ∷ []

-- "creator_vault"
abbrev creator_vault_seed : List ℕ
creator_vault_seed = 99 ∷ 114 ∷ 101 ∷ 97 ∷ 116 ∷ 111 ∷ 114 ∷ 95 ∷ 118 ∷ 97 ∷ 117 ∷ 108 ∷ 116 ∷ []

-- "fee_config"
abbrev fee_config_seed : List ℕ
fee_config_seed = 102 ∷ 101 ∷ 101 ∷ 95 ∷ 99 ∷ 111 ∷ 110 ∷ 102 ∷ 105 ∷ 103 ∷ []

-- "pool-v2"
abbrev pool_v2_seed : List ℕ
pool_v2_seed = 112 ∷ 111 ∷ 111 ∷ 108 ∷ 45 ∷ 118 ∷ 50 ∷ []

-- `Pubkey::default()`
abbrev pub default_key : Pubkey
default_key = 0

abbrev pub ata_addr : Runtime → Pubkey → Pubkey → Pubkey → Pubkey
ata_addr rt wallet mint token_program =
    rt.find_program_address (as_ref wallet ∷ as_ref token_program ∷ as_ref mint ∷ [])
      Constants.ata_program

abbrev pub pumpswap_user_vol_accumulator : Runtime → Pubkey → Pubkey
pumpswap_user_vol_accumulator rt user =
    rt.find_program_address (user_volume_seed ∷ as_ref user ∷ []) Constants.pumpfun_amm_program

abbrev pub pumpswap_coin_creator_vault_authority : Runtime → Pubkey → Pubkey
pumpswap_coin_creator_vault_authority rt coin_creator =
    rt.find_program_address (creator_vault_seed ∷ as_ref coin_creator ∷ [])
      Constants.pumpfun_amm_program

abbrev pub pumpswap_coin_creator_vault_ata : Runtime → Pubkey → Pubkey → Pubkey → Pubkey
pumpswap_coin_creator_vault_ata rt authority quote_mint quote_token_program =
    ata_addr rt authority quote_mint quote_token_program

abbrev pub pumpswap_fee_config_pda : Runtime → Pubkey
pumpswap_fee_config_pda rt =
    rt.find_program_address (fee_config_seed ∷ as_ref Constants.pumpfun_amm_program ∷ [])
      Constants.pumpswap_fee_program

abbrev pub pumpswap_pool_v2_pda : Runtime → Pubkey → Pubkey
pumpswap_pool_v2_pda rt base_mint =
    rt.find_program_address (pool_v2_seed ∷ as_ref base_mint ∷ []) Constants.pumpfun_amm_program

abbrev pub pumpswap_user_vol_accumulator_quote_ata : Runtime → Pubkey → Pubkey → Pubkey → Pubkey
pumpswap_user_vol_accumulator_quote_ata rt user quote_mint quote_token_program =
    ata_addr rt (pumpswap_user_vol_accumulator rt user) quote_mint quote_token_program
