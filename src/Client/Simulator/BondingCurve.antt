-- ===== src/Client/Simulator/BondingCurve.antt =====
-- src/simulator/bonding_curve.rs: the Pump.fun bonding curve builders.
use solana_atomic_arbitrage.Base.{ℕ, true, false, List, [], ◌∷◌, ◌++◌}
use solana_atomic_arbitrage.Base.Bytes.{to_le_bytes}
use solana_atomic_arbitrage.Client.Constants
use solana_atomic_arbitrage.Client.Route.Sections.{system_program}
use solana_atomic_arbitrage.Router.Types.{
  Pubkey, AccountMeta, Instruction, Runtime, writable, readonly,
}

-- "global"
abbrev global_seed : List ℕ
global_seed = 103 ∷ 108 ∷ 111 ∷ 98 ∷ 97 ∷ 108 ∷ []

-- "event-authority"
abbrev event_authority_seed : List ℕ
event_authority_seed =
    101 ∷ 118 ∷ 101 ∷ 110 ∷ 116 ∷ 45 ∷ 97 ∷ 117 ∷ 116 ∷ 104 ∷ 111 ∷ 114 ∷ 105 ∷ 116 ∷ 121 ∷ []

abbrev pub pumpfun_global_pda : Runtime → Pubkey
pumpfun_global_pda rt =
    rt.find_program_address (global_seed ∷ []) Constants.pumpfun_bonding_curve_program

abbrev pub pumpfun_event_authority_pda : Runtime → Pubkey
pumpfun_event_authority_pda rt =
    rt.find_program_address (event_authority_seed ∷ []) Constants.pumpfun_bonding_curve_program

-- The account arguments of the two builders.
pub record CurveKeys : Type 0 where
  pub user : Pubkey
  pub mint : Pubkey
  pub bonding_curve : Pubkey
  pub associated_bonding_curve : Pubkey
  pub associated_user : Pubkey
  pub fee_recipient : Pubkey
  pub token_program : Pubkey

abbrev curve_metas : Runtime → CurveKeys → List AccountMeta
curve_metas rt k =
    readonly (pumpfun_global_pda rt) false
    ∷ writable k.user true
    ∷ readonly k.mint false
    ∷ writable k.bonding_curve false
    ∷ writable k.associated_bonding_curve false
    ∷ writable k.associated_user false
    ∷ writable k.fee_recipient false
    ∷ readonly system_program false
    ∷ readonly k.token_program false
    ∷ readonly Constants.ata_program false
    ∷ readonly Constants.sysvar_rent false
    ∷ readonly (pumpfun_event_authority_pda rt) false
    ∷ readonly Constants.pumpfun_bonding_curve_program false
    ∷ []

unfoldable pub build_pumpfun_buy_ix : Runtime → CurveKeys → ℕ → ℕ → Instruction
build_pumpfun_buy_ix rt k amount_lamports min_amount_out = record {
  program_id = Constants.pumpfun_bonding_curve_program;
  accounts = curve_metas rt k;
  bytes =
      Constants.pumpfun_buy_discriminator
      ++ (to_le_bytes 8 amount_lamports ++ to_le_bytes 8 min_amount_out);
}

unfoldable pub build_pumpfun_sell_ix : Runtime → CurveKeys → ℕ → ℕ → Instruction
build_pumpfun_sell_ix rt k amount_tokens min_sol_out = record {
  program_id = Constants.pumpfun_bonding_curve_program;
  accounts = curve_metas rt k;
  bytes =
      Constants.pumpfun_sell_discriminator
      ++ (to_le_bytes 8 amount_tokens ++ to_le_bytes 8 min_sol_out);
}
