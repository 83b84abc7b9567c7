-- ===== src/Client/Route/Layout.antt =====
-- The two route instructions for a PumpSwap and a DLMM pool (onchain_router.rs,
-- `build_route_pump_to_dlmm` and `build_route_dlmm_to_pump`), after their addresses are parsed.
use solana_atomic_arbitrage.Base.{
  ℕ, ◌≡◌, refl, Bool, true, false, Bool-cases, List, [], ◌∷◌, length, take, inl, inr, ◌/=◌, Option,
  some, none, ◌==◌,
}
use solana_atomic_arbitrage.Client.Constants
use solana_atomic_arbitrage.Client.Pda.{default_key}
use solana_atomic_arbitrage.Client.Pool.{PumpSwapPoolMeta}
use solana_atomic_arbitrage.Client.Route.Encode.{build_ix_data}
use solana_atomic_arbitrage.Client.Route.Sections.{
  RouteKeys, DlmmKeys, push_pumpswap_buy_accounts, push_pumpswap_sell_accounts, push_dlmm_accounts,
  pumpswap_buy_remaining_count, pumpswap_sell_remaining_count, buy_remaining, sell_remaining,
}
use solana_atomic_arbitrage.Router.Types.{
  Pubkey, AccountMeta, Instruction, Runtime, writable, as_ref,
}

abbrev pub shared_accounts : RouteKeys → List AccountMeta
shared_accounts k =
    writable k.user true ∷ writable k.user_sol_ata false ∷ writable k.user_meme_ata false ∷ []

-- The first five bin arrays.
abbrev pub used_bin_arrays : List Pubkey → List Pubkey
used_bin_arrays bin_arrays = take 5 bin_arrays

module _ (rt : Runtime) (k : RouteKeys) (pool_meta : PumpSwapPoolMeta) (d : DlmmKeys)
    (bin_array_addresses : List Pubkey) (arb_program_id : Pubkey)
    (investment_lamports min_meme_out min_profit_lamports : ℕ) (dlmm_sol_is_x : Bool) where
  unfoldable pub assemble_pump_to_dlmm : Instruction
  assemble_pump_to_dlmm =
      let bin_arrays = used_bin_arrays bin_array_addresses in
      record {
        program_id = arb_program_id;
        accounts =
            push_dlmm_accounts d bin_arrays
              (push_pumpswap_buy_accounts rt k pool_meta (shared_accounts k));
        bytes =
            build_ix_data Constants.route_pump_to_dlmm_disc investment_lamports min_profit_lamports
              min_meme_out false dlmm_sol_is_x (pumpswap_buy_remaining_count pool_meta)
              (length bin_arrays);
      }

  unfoldable pub assemble_dlmm_to_pump : Instruction
  assemble_dlmm_to_pump =
      let bin_arrays = used_bin_arrays bin_array_addresses in
      record {
        program_id = arb_program_id;
        accounts =
            push_pumpswap_sell_accounts rt k pool_meta
              (push_dlmm_accounts d bin_arrays (shared_accounts k));
        bytes =
            build_ix_data Constants.route_dlmm_to_pump_disc investment_lamports min_profit_lamports
              min_meme_out false dlmm_sol_is_x (pumpswap_sell_remaining_count pool_meta)
              (length bin_arrays);
      }

-- "oracle"
abbrev dlmm_oracle_seed : List ℕ
dlmm_oracle_seed = 111 ∷ 114 ∷ 97 ∷ 99 ∷ 108 ∷ 101 ∷ []

-- The fields of `DlmmPoolReserves` that the routes use, with their addresses parsed.
pub record DlmmPoolReserves : Type 0 where
  pub lb_pair : Pubkey
  pub reserve_x_address : Pubkey
  pub reserve_y_address : Pubkey
  pub token_x_mint : Pubkey
  pub bin_array_bitmap_extension : Option Pubkey
  pub bin_array_addresses : List Pubkey

-- The other arguments of the two builders.
pub record RouteInputs : Type 0 where
  pub wallet_pubkey : Pubkey
  pub user_sol_ata : Pubkey
  pub user_meme_ata : Pubkey
  pub meme_mint : Pubkey
  pub meme_token_program : Pubkey
  pub pool : Pubkey
  pub arb_program_id : Pubkey
  pub investment_lamports : ℕ
  pub min_meme_out : ℕ
  pub min_profit_lamports : ℕ

abbrev pub route_keys_of : RouteInputs → RouteKeys
route_keys_of inputs = record {
  user = inputs.wallet_pubkey;
  user_sol_ata = inputs.user_sol_ata;
  user_meme_ata = inputs.user_meme_ata;
  meme_mint = inputs.meme_mint;
  sol_mint = Constants.native_sol_mint;
  base_token_program = inputs.meme_token_program;
  quote_token_program = Constants.token_program;
  pool = inputs.pool;
}

abbrev bitmap_of : Option Pubkey → Pubkey
bitmap_of (some key) = key
bitmap_of none = Constants.dlmm_program

abbrev pub dlmm_keys_of : Runtime → DlmmPoolReserves → DlmmKeys
dlmm_keys_of rt dlmm = record {
  dlmm_program = Constants.dlmm_program;
  lb_pair = dlmm.lb_pair;
  bitmap = bitmap_of dlmm.bin_array_bitmap_extension;
  reserve_x = dlmm.reserve_x_address;
  reserve_y = dlmm.reserve_y_address;
  oracle =
      rt.find_program_address (dlmm_oracle_seed ∷ as_ref dlmm.lb_pair ∷ []) Constants.dlmm_program;
  host_fee = Constants.dlmm_program;
  memo_program = Constants.memo_program;
  event_auth = Constants.dlmm_event_authority;
}

-- `dlmm.token_x_mint == constants::NATIVE_SOL_MINT`
abbrev pub sol_is_x : DlmmPoolReserves → Bool
sol_is_x dlmm = dlmm.token_x_mint == Constants.native_sol_mint

module _ (rt : Runtime) (inputs : RouteInputs) (dlmm : DlmmPoolReserves)
    (pool_meta : PumpSwapPoolMeta) where
  unfoldable pub build_route_pump_to_dlmm : Instruction
  build_route_pump_to_dlmm =
      assemble_pump_to_dlmm rt (route_keys_of inputs) pool_meta (dlmm_keys_of rt dlmm)
        dlmm.bin_array_addresses inputs.arb_program_id inputs.investment_lamports
        inputs.min_meme_out inputs.min_profit_lamports (sol_is_x dlmm)

  unfoldable pub build_route_dlmm_to_pump : Instruction
  build_route_dlmm_to_pump =
      assemble_dlmm_to_pump rt (route_keys_of inputs) pool_meta (dlmm_keys_of rt dlmm)
        dlmm.bin_array_addresses inputs.arb_program_id inputs.investment_lamports
        inputs.min_meme_out inputs.min_profit_lamports (sol_is_x dlmm)

-- The count that the client sends for a PumpSwap buy section is the number of remaining accounts
-- it pushes.
pub length-buy_remaining :
    (rt : Runtime) (k : RouteKeys) (pool_meta : PumpSwapPoolMeta)
    → length (buy_remaining rt k pool_meta) ≡ pumpswap_buy_remaining_count pool_meta
unfolding buy_remaining pumpswap_buy_remaining_count
length-buy_remaining rt k pool_meta = elim (Bool-cases pool_meta.is_cashback_coin) [
  | inl c ↦ elim (Bool-cases (pool_meta.coin_creator /= default_key)) [
    | inl w ↦ rw (c, w) refl
    | inr w ↦ rw (c, w) refl
  ]
  | inr c ↦ elim (Bool-cases (pool_meta.coin_creator /= default_key)) [
    | inl w ↦ rw (c, w) refl
    | inr w ↦ rw (c, w) refl
  ]
]

-- The count of a PumpSwap sell section in the legacy route is the number of remaining accounts pushed.
pub length-sell_remaining :
    (rt : Runtime) (k : RouteKeys) (pool_meta : PumpSwapPoolMeta)
    → length (sell_remaining rt k pool_meta) ≡ pumpswap_sell_remaining_count pool_meta
unfolding sell_remaining pumpswap_sell_remaining_count
length-sell_remaining rt k pool_meta = elim (Bool-cases pool_meta.is_cashback_coin) [
  | inl c ↦ elim (Bool-cases (pool_meta.coin_creator /= default_key)) [
    | inl w ↦ rw (c, w) refl
    | inr w ↦ rw (c, w) refl
  ]
  | inr c ↦ elim (Bool-cases (pool_meta.coin_creator /= default_key)) [
    | inl w ↦ rw (c, w) refl
    | inr w ↦ rw (c, w) refl
  ]
]
