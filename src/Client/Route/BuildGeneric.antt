-- ===== src/Client/Route/BuildGeneric.antt =====
-- src/executor/atomic/generic_route.rs, `build_generic_route`: the whole instruction of a generic
-- route. The program id of the configuration is taken as parsed.
use solana_atomic_arbitrage.Base.{
  ℕ, Bool, false, List, [], ◌∷◌, ◌++◌, Option, none, some, ◌==◌, if◌then◌else◌,
}
use solana_atomic_arbitrage.Base.Options.{◌>>=◌}
use solana_atomic_arbitrage.Client.Constants
use solana_atomic_arbitrage.Client.Route.Generic.{
  dex_kind_pumpswap, dex_kind_dlmm, dex_kind_cpmm, dex_kind_whirlpool, ix_remaining, generic_data,
}
use solana_atomic_arbitrage.Client.Route.GenericSections.{
  CpmmKeys, WhirlpoolKeys, push_cpmm_accounts, push_whirlpool_accounts, push_dlmm_generic_accounts,
}
use solana_atomic_arbitrage.Client.Route.Layout.{shared_accounts}
use solana_atomic_arbitrage.Client.Route.SectionData.{
  CpmmSectionData, WhirlpoolSectionData, PumpSwapSectionData, DlmmSectionData,
}
use solana_atomic_arbitrage.Client.Route.Sections.{
  RouteKeys, push_pumpswap_buy_accounts, push_pumpswap_sell_accounts, system_program,
}
use solana_atomic_arbitrage.Router.Types.{Pubkey, AccountMeta, Instruction, Runtime, readonly}

-- The arguments for one side: the kind, the data of each kind, and the remaining count.
pub record SideInputs : Type 0 where
  pub kind : ℕ
  pub cpmm : Option CpmmSectionData
  pub whirlpool : Option WhirlpoolSectionData
  pub pumpswap : Option PumpSwapSectionData
  pub dlmm : Option DlmmSectionData
  pub remaining : ℕ

-- The other arguments.
pub record GenericInputs : Type 0 where
  pub wallet_pubkey : Pubkey
  pub user_sol_ata : Pubkey
  pub user_meme_ata : Pubkey
  pub meme_mint : Pubkey
  pub sol_mint : Pubkey
  pub investment_lamports : ℕ
  pub min_meme_out : ℕ
  pub min_profit_lamports : ℕ
  pub buy_sol_is_x : Bool
  pub meme_token_program : Pubkey
  pub sol_token_program : Pubkey
  pub onchain_program_id : Pubkey

abbrev pub keys_for : GenericInputs → Pubkey → RouteKeys
keys_for g pool = record {
  user = g.wallet_pubkey;
  user_sol_ata = g.user_sol_ata;
  user_meme_ata = g.user_meme_ata;
  meme_mint = g.meme_mint;
  sol_mint = g.sol_mint;
  base_token_program = g.meme_token_program;
  quote_token_program = g.sol_token_program;
  pool = pool;
}

-- The sell section of the legacy route, and two places behind it.
unfoldable pub push_pumpswap_generic_sell :
    Runtime → GenericInputs → PumpSwapSectionData → List AccountMeta → List AccountMeta
push_pumpswap_generic_sell rt g d accounts =
    push_pumpswap_sell_accounts rt (keys_for g d.pool) d.pool_meta accounts
    ++ readonly system_program false ∷ readonly system_program false ∷ []

unfoldable pub push_pumpswap_generic_buy :
    Runtime → GenericInputs → PumpSwapSectionData → List AccountMeta → List AccountMeta
push_pumpswap_generic_buy rt g d accounts =
    push_pumpswap_buy_accounts rt (keys_for g d.pool) d.pool_meta accounts

module _ (rt : Runtime) (g : GenericInputs) where
  -- The CPMM keys of a swap of `input` for `output`.
  abbrev cpmm_keys : CpmmSectionData → Pubkey × Pubkey → Pubkey × Pubkey → CpmmKeys
  cpmm_keys d input output = record {
    pool = d.pool;
    input_mint = input.0;
    output_mint = output.0;
    input_ata = input.1;
    output_ata = output.1;
    memo_program = Constants.memo_program;
    token22 = Constants.token22_program;
    amm_config = d.config;
  }

  abbrev whirlpool_keys : WhirlpoolSectionData → Pubkey → Pubkey → WhirlpoolKeys
  whirlpool_keys d input_ata output_ata = record {
    pool = d.pool;
    input_ata = input_ata;
    output_ata = output_ata;
    vault_a = d.vault_a;
    vault_b = d.vault_b;
    tick_arrays = d.tick_arrays;
  }

  abbrev sol : Pubkey × Pubkey
  sol = (g.sol_mint, g.user_sol_ata)

  abbrev meme : Pubkey × Pubkey
  meme = (g.meme_mint, g.user_meme_ata)

  -- The `match buy_kind`; `none` is missing data or an unsupported kind.
  unfoldable pub push_buy_section : SideInputs → List AccountMeta → Option (List AccountMeta)
  push_buy_section side accounts =
      if side.kind == dex_kind_pumpswap
      then (do d ← side.pumpswap; some (push_pumpswap_generic_buy rt g d accounts))
      else if side.kind == dex_kind_dlmm
      then (do
        d ← side.dlmm
        some (push_dlmm_generic_accounts d.keys d.tokens d.bin_arrays accounts))
      else if side.kind == dex_kind_cpmm
      then (do d ← side.cpmm; some (push_cpmm_accounts rt (cpmm_keys d sol meme) accounts))
      else if side.kind == dex_kind_whirlpool
      then (do
        d ← side.whirlpool
        some
            (push_whirlpool_accounts rt (whirlpool_keys d g.user_sol_ata g.user_meme_ata) accounts))
      else none

  -- The `match sell_kind`.
  unfoldable pub push_sell_section : SideInputs → List AccountMeta → Option (List AccountMeta)
  push_sell_section side accounts =
      if side.kind == dex_kind_pumpswap
      then (do d ← side.pumpswap; some (push_pumpswap_generic_sell rt g d accounts))
      else if side.kind == dex_kind_dlmm
      then (do
        d ← side.dlmm
        some (push_dlmm_generic_accounts d.keys d.tokens d.bin_arrays accounts))
      else if side.kind == dex_kind_cpmm
      then (do d ← side.cpmm; some (push_cpmm_accounts rt (cpmm_keys d meme sol) accounts))
      else if side.kind == dex_kind_whirlpool
      then (do
        d ← side.whirlpool
        some
            (push_whirlpool_accounts rt (whirlpool_keys d g.user_meme_ata g.user_sol_ata) accounts))
      else none

  -- `dlmm.map(|d| d.bin_count)`
  abbrev bin_count_of : SideInputs → Option ℕ
  bin_count_of side = elim side.dlmm [ none ↦ none | some d ↦ some d.bin_count ]

  unfoldable pub build_generic_route : SideInputs → SideInputs → Option Instruction
  build_generic_route buy sell = do
    with_buy ← push_buy_section buy (shared_accounts (keys_for g g.wallet_pubkey))
    accounts ← push_sell_section sell with_buy
    some (record {
      program_id = g.onchain_program_id;
      accounts = accounts;
      bytes =
          generic_data g.investment_lamports g.min_profit_lamports g.min_meme_out g.buy_sol_is_x
            (ix_remaining buy.kind buy.remaining (bin_count_of buy))
            (ix_remaining sell.kind sell.remaining (bin_count_of sell));
    })
