-- ===== src/Client/Simulator/Raydium.antt =====
-- src/simulator/cpmm.rs and src/simulator/ammv4.rs: the Raydium builders, the sides of a CPMM pool,
-- and the accounts that the AMM v4 code reads.
use solana_atomic_arbitrage.Base.{
  ℕ, true, false, List, [], ◌∷◌, ◌++◌, Option, none, some, length, ltb, ◌==◌, if◌then◌else◌,
}
use solana_atomic_arbitrage.Base.Bytes.{to_le_bytes, from_le_bytes, slice}
use solana_atomic_arbitrage.Base.Options.{◌>>=◌}
use solana_atomic_arbitrage.Client.Constants
use solana_atomic_arbitrage.Client.Pool.{key_at}
use solana_atomic_arbitrage.Router.Types.{
  Pubkey, AccountMeta, Instruction, Runtime, writable, readonly, as_ref,
}

-- A pool's mints, vaults and vault amounts, its texts taken as parsed keys.
pub record PoolStateData : Type 0 where
  pub pool_pubkey : Pubkey
  pub config_pubkey : Pubkey
  pub token_0_mint : Pubkey
  pub token_1_mint : Pubkey
  pub token_0_vault : Pubkey
  pub token_1_vault : Pubkey
  pub token_0_vault_raw : ℕ
  pub token_1_vault_raw : ℕ

-- The six values that `resolve_pool_sides` returns.
pub record PoolSides : Type 0 where
  pub sol_mint : Pubkey
  pub meme_mint : Pubkey
  pub sol_vault : Pubkey
  pub meme_vault : Pubkey
  pub sol_raw : ℕ
  pub meme_raw : ℕ

unfoldable pub resolve_pool_sides : PoolStateData → Option PoolSides
resolve_pool_sides pool =
    if pool.token_0_mint == Constants.native_sol_mint
    then some (record {
      sol_mint = pool.token_0_mint;
      meme_mint = pool.token_1_mint;
      sol_vault = pool.token_0_vault;
      meme_vault = pool.token_1_vault;
      sol_raw = pool.token_0_vault_raw;
      meme_raw = pool.token_1_vault_raw;
    })
    else if pool.token_1_mint == Constants.native_sol_mint
    then some (record {
      sol_mint = pool.token_1_mint;
      meme_mint = pool.token_0_mint;
      sol_vault = pool.token_1_vault;
      meme_vault = pool.token_0_vault;
      sol_raw = pool.token_1_vault_raw;
      meme_raw = pool.token_0_vault_raw;
    })
    else none

-- "vault_and_lp"
abbrev vault_and_lp_seed : List ℕ
vault_and_lp_seed = 118 ∷ 97 ∷ 117 ∷ 108 ∷ 116 ∷ 95 ∷ 97 ∷ 110 ∷ 100 ∷ 95 ∷ 108 ∷ 112 ∷ []

-- "amm authority"
abbrev amm_authority_seed : List ℕ
amm_authority_seed = 97 ∷ 109 ∷ 109 ∷ 32 ∷ 97 ∷ 117 ∷ 116 ∷ 104 ∷ 111 ∷ 114 ∷ 105 ∷ 116 ∷ 121 ∷ []

-- The account arguments of `build_cpmm_swap_ix`.
pub record CpmmSwapKeys : Type 0 where
  pub payer : Pubkey
  pub pool_state : Pubkey
  pub amm_config : Pubkey
  pub input_mint : Pubkey
  pub output_mint : Pubkey
  pub input_ata : Pubkey
  pub output_ata : Pubkey
  pub input_vault : Pubkey
  pub output_vault : Pubkey
  pub cpmm_program : Pubkey

unfoldable pub build_cpmm_swap_ix : Runtime → CpmmSwapKeys → ℕ → ℕ → Instruction
build_cpmm_swap_ix rt k amount_in min_amount_out = record {
  program_id = k.cpmm_program;
  accounts =
      writable k.payer true
      ∷ readonly
          (rt.find_program_address (vault_and_lp_seed ∷ as_ref k.pool_state ∷ []) k.cpmm_program)
          false
      ∷ readonly k.amm_config false
      ∷ writable k.pool_state false
      ∷ writable k.input_ata false
      ∷ writable k.output_ata false
      ∷ writable k.input_vault false
      ∷ writable k.output_vault false
      ∷ readonly k.input_mint false
      ∷ readonly k.output_mint false
      ∷ readonly Constants.token_program false
      ∷ readonly Constants.memo_program false
      ∷ readonly Constants.token22_program false
      ∷ [];
  bytes =
      Constants.cpmm_swap_discriminator
      ++ (to_le_bytes 8 amount_in ++ to_le_bytes 8 min_amount_out);
}

-- The account arguments of the two AMM v4 builders.
pub record AmmV4Keys : Type 0 where
  pub wallet : Pubkey
  pub pool_state : Pubkey
  pub open_orders : Pubkey
  pub target_orders : Pubkey
  pub coin_vault : Pubkey
  pub pc_vault : Pubkey
  pub market : Pubkey
  pub bids : Pubkey
  pub asks : Pubkey
  pub event_queue : Pubkey
  pub user_input_ata : Pubkey
  pub user_output_ata : Pubkey
  pub amm_v4 : Pubkey

abbrev ammv4_metas : Runtime → AmmV4Keys → List AccountMeta
ammv4_metas rt k =
    readonly Constants.token_program false
    ∷ writable k.pool_state false
    ∷ readonly (rt.find_program_address (amm_authority_seed ∷ as_ref k.pool_state ∷ []) k.amm_v4)
        false
    ∷ writable k.open_orders false
    ∷ writable k.target_orders false
    ∷ writable k.coin_vault false
    ∷ writable k.pc_vault false
    ∷ readonly Constants.serum_program false
    ∷ writable k.market false
    ∷ writable k.bids false
    ∷ writable k.asks false
    ∷ writable k.event_queue false
    ∷ writable k.user_input_ata false
    ∷ writable k.user_output_ata false
    ∷ writable k.wallet true
    ∷ []

unfoldable pub build_ammv4_swap_ix : Runtime → AmmV4Keys → ℕ → ℕ → Instruction
build_ammv4_swap_ix rt k amount_in min_amount_out = record {
  program_id = k.amm_v4;
  accounts = ammv4_metas rt k;
  bytes =
      Constants.ammv4_swap_discriminator
      ++ (to_le_bytes 8 amount_in ++ to_le_bytes 8 min_amount_out);
}

unfoldable pub build_ammv4_swap_out_ix : Runtime → AmmV4Keys → ℕ → ℕ → Instruction
build_ammv4_swap_out_ix rt k max_amount_in amount_out = record {
  program_id = k.amm_v4;
  accounts = ammv4_metas rt k;
  bytes =
      Constants.ammv4_swap_out_discriminator
      ++ (to_le_bytes 8 max_amount_in ++ to_le_bytes 8 amount_out);
}

-- `fetch_serum_market_addrs`, given the market account's data: bids, asks, event queue.
unfoldable pub serum_market_addrs : List ℕ → Option (Pubkey × Pubkey × Pubkey)
serum_market_addrs bytes =
    if ltb (length bytes) 344
    then none
    else some (key_at bytes 280, key_at bytes 312, key_at bytes 248)

-- The amount of a token account, bytes 64 to 72.
unfoldable pub parse_vault_amount : List ℕ → Option ℕ
parse_vault_amount bytes =
    if ltb (length bytes) 72 then none else some (from_le_bytes (slice bytes 64 8))

-- `read_ammv4_vault_amounts`, given the two accounts that the node returns.
unfoldable pub vault_amounts : Option (List ℕ) → Option (List ℕ) → Option (ℕ × ℕ)
vault_amounts vault_a vault_b = do
  bytes_a ← vault_a
  a ← parse_vault_amount bytes_a
  bytes_b ← vault_b
  b ← parse_vault_amount bytes_b
  some (a, b)
