-- ===== src/Examples/Accounts.antt =====
-- A small world for the examples: two pools, and a runtime whose calls move the balances.
use solana_atomic_arbitrage.Base.{
  ℕ, Bool, true, false, List, [], ◌∷◌, ◌++◌, Option, some, set, replicate, ◌==◌, if◌then◌else◌,
  length, map, length-set, Bool-cases, inl, inr, ◌≡◌, ◌∙◌, sym, ap, refl, none,
}
use solana_atomic_arbitrage.Base.Bytes.{to_le_bytes}
use solana_atomic_arbitrage.Client.Constants as Sent
use solana_atomic_arbitrage.Client.Pool.{PumpSwapPoolMeta}
use solana_atomic_arbitrage.Client.Route.Encode.{build_ix_data}
use solana_atomic_arbitrage.Client.Route.Sections.{RouteKeys}
use solana_atomic_arbitrage.Router.Constants
use solana_atomic_arbitrage.Router.Types.{
  Pubkey, AccountInfo, AccountMeta, Instruction, Runtime, KeepsLength,
}
use solana_atomic_arbitrage.Client.Route.Accepted.{Loaded, loaded_nil, loaded_cons}
use mathlib.Core.Option.{some-injective}
use solana_atomic_arbitrage.Client.Route.GenericSections.{CpmmKeys}
use solana_atomic_arbitrage.Client.Route.Layout.{DlmmPoolReserves, RouteInputs}

-- A token account that holds `amount`.
abbrev pub token_bytes : ℕ → List ℕ
token_bytes amount = replicate 64 0 ++ to_le_bytes 8 amount

abbrev pub plain : Pubkey → Pubkey → AccountInfo
plain key owner = record {
  key = key;
  owner = owner;
  lamports = 0;
  bytes = [];
  is_signer = false;
  is_writable = true;
}

abbrev pub wallet : ℕ → AccountInfo
wallet lamports = record {
  key = 1;
  owner = 0;
  lamports = lamports;
  bytes = [];
  is_signer = true;
  is_writable = true;
}

abbrev pub token_account : Pubkey → ℕ → AccountInfo
token_account key amount = record {
  key = key;
  owner = Constants.token_id;
  lamports = 0;
  bytes = token_bytes amount;
  is_signer = false;
  is_writable = true;
}

-- The derived address of everything.
abbrev pub pda : Pubkey
pda = 7

abbrev pump_section : List AccountInfo
pump_section =
    plain 100 0 ∷ plain 1 0 ∷ plain pda 0 ∷ replicate 12 (plain 101 0)
    ++ plain pda 0 ∷ plain Constants.pump_swap_id 0 ∷ replicate 6 (plain 102 0)

abbrev cpmm_section : List AccountInfo
cpmm_section =
    plain Constants.cpmm_id 0
      ∷ plain pda 0
      ∷ plain 200 0
      ∷ plain 201 Constants.cpmm_id
      ∷ replicate 6 (plain 202 0)
    ++ plain Constants.token_id 0 ∷ plain Constants.token_id 0 ∷ plain Constants.memo_id 0 ∷ []

-- The user, the SOL account, the meme account, and the two sections.
abbrev pub generic_accounts : ℕ → ℕ → List AccountInfo
generic_accounts lamports meme =
    wallet lamports ∷ token_account 2 0 ∷ token_account 3 meme ∷ pump_section ++ cpmm_section

-- The buy takes 100 lamports for 500 tokens, the sell gives 150 for all tokens.
abbrev pub trading_invoke : Instruction → List AccountInfo → Option (List AccountInfo)
trading_invoke ix accounts =
    if ix.program_id == Constants.pump_swap_id
    then some (set (set accounts 0 (wallet 900)) 2 (token_account 3 500))
    else some (set (set accounts 0 (wallet 1050)) 2 (token_account 3 0))

abbrev pub trading_runtime : Runtime
trading_runtime = record { find_program_address = λ seeds program. pda; invoke = trading_invoke }

-- 100 lamports in, a profit of 50 lamports asked, 400 tokens at least.
abbrev pub generic_bytes : List ℕ
generic_bytes = build_ix_data Sent.route_disc 100 50 400 false true 0 0

-- The calls keep the length of the account list.
pub trading_runtime-KeepsLength : KeepsLength trading_runtime
trading_runtime-KeepsLength ix before after h =
    elim (Bool-cases (ix.program_id == Constants.pump_swap_id)) [
      | inl p ↦ moved before 900 500 after (ap (choice before) (sym p) ∙ h)
      | inr p ↦ moved before 1050 0 after (ap (choice before) (sym p) ∙ h)
    ]
  where
    choice : List AccountInfo → Bool → Option (List AccountInfo)
    choice before b =
        if b
        then some (set (set before 0 (wallet 900)) 2 (token_account 3 500))
        else some (set (set before 0 (wallet 1050)) 2 (token_account 3 0))

    moved :
        (before : List AccountInfo) (lamports meme : ℕ) (after : List AccountInfo)
        → some (set (set before 0 (wallet lamports)) 2 (token_account 3 meme)) ≡ some after
        → length after ≡ length before
    moved before lamports meme after h =
        ap length (sym (some-injective _ _ h))
        ∙ length-set (set before 0 (wallet lamports)) 2 (token_account 3 meme)
        ∙ length-set before 0 (wallet lamports)

-- The runtime that derives the PumpSwap addresses which the client has as constants.
abbrev known_address : List (List ℕ) → Pubkey
known_address [] = pda
known_address (seed ∷ seeds) =
    if length seed == 17
    then Sent.pumpswap_event_authority
    else if length seed == 13
    then Sent.pumpswap_global_config
    else pda

abbrev pub mainnet : Runtime
mainnet = record {
  find_program_address = λ seeds program. known_address seeds;
  invoke = λ ix accounts. some accounts;
}

abbrev pub route_keys : RouteKeys
route_keys = record {
  user = 1;
  user_sol_ata = 2;
  user_meme_ata = 3;
  meme_mint = 4;
  sol_mint = Sent.native_sol_mint;
  base_token_program = Sent.token_program;
  quote_token_program = Sent.token_program;
  pool = 5;
}

abbrev pub pool_meta : PumpSwapPoolMeta
pool_meta = record {
  coin_creator = 11;
  is_mayhem_mode = false;
  is_cashback_coin = true;
  pool_base_token_account = 12;
  pool_quote_token_account = 13;
}

abbrev pub dlmm_pool : DlmmPoolReserves
dlmm_pool = record {
  lb_pair = 21;
  reserve_x_address = 23;
  reserve_y_address = 24;
  token_x_mint = Sent.native_sol_mint;
  bin_array_bitmap_extension = none;
  bin_array_addresses = 31 ∷ 32 ∷ [];
}

abbrev pub route_inputs : RouteInputs
route_inputs = record {
  wallet_pubkey = 1;
  user_sol_ata = 2;
  user_meme_ata = 3;
  meme_mint = 4;
  meme_token_program = Sent.token_program;
  pool = 5;
  arb_program_id = 99;
  investment_lamports = 1000000;
  min_meme_out = 450;
  min_profit_lamports = 7000;
}

-- The accounts of some metas, owned by the CPMM program.
abbrev pub load : AccountMeta → AccountInfo
load m = record {
  key = m.pubkey;
  owner = Constants.cpmm_id;
  lamports = 0;
  bytes = [];
  is_signer = m.is_signer;
  is_writable = m.is_writable;
}

pub map-load-Loaded : (ms : List AccountMeta) → Loaded ms (map load ms)
map-load-Loaded [] = loaded_nil
map-load-Loaded (m ∷ ms) = loaded_cons m (load m) refl refl (map-load-Loaded ms)

-- The sections of the two legacy routes, with `n` volume accounts in the PumpSwap section.
abbrev legacy_pump : ℕ → List AccountInfo
legacy_pump n =
    plain 100 0
      ∷ plain 1 0
      ∷ plain pda 0
      ∷ plain 4 0
      ∷ plain Constants.native_sol_mint 0
      ∷ replicate 7 (plain 101 0)
    ++ plain Constants.token_id 0
      ∷ plain Constants.system_id 0
      ∷ plain Constants.ata_id 0
      ∷ plain pda 0
      ∷ plain Constants.pump_swap_id 0
      ∷ replicate n (plain 102 0)
    ++ plain pda 0 ∷ plain Constants.fee_program_id 0 ∷ []

abbrev legacy_dlmm : List AccountInfo
legacy_dlmm =
    plain Constants.dlmm_id 0 ∷ replicate 4 (plain 103 0)
    ++ plain pda 0
      ∷ plain 104 0
      ∷ plain Constants.memo_id 0
      ∷ plain Constants.dlmm_event_auth 0
      ∷ plain 105 0
      ∷ []

abbrev pub pump_to_dlmm_accounts : ℕ → ℕ → List AccountInfo
pump_to_dlmm_accounts lamports meme =
    wallet lamports ∷ token_account 2 0 ∷ token_account 3 meme ∷ legacy_pump 4 ++ legacy_dlmm

abbrev pub dlmm_to_pump_accounts : ℕ → ℕ → List AccountInfo
dlmm_to_pump_accounts lamports meme =
    wallet lamports ∷ token_account 2 0 ∷ token_account 3 meme ∷ legacy_dlmm ++ legacy_pump 2

-- The runtime in which DLMM is the buy.
abbrev pub dlmm_first : Runtime
dlmm_first = record {
  find_program_address = λ seeds program. pda;
  invoke = λ ix accounts.
      if ix.program_id == Constants.dlmm_id
      then some (set (set accounts 0 (wallet 900)) 2 (token_account 3 500))
      else some (set (set accounts 0 (wallet 1050)) 2 (token_account 3 0));
}

abbrev pub pump_to_dlmm_bytes : List ℕ
pump_to_dlmm_bytes = build_ix_data Sent.route_pump_to_dlmm_disc 100 50 400 false true 0 1

abbrev pub dlmm_to_pump_bytes : List ℕ
dlmm_to_pump_bytes = build_ix_data Sent.route_dlmm_to_pump_disc 100 50 40 false true 0 1

abbrev pub cpmm_keys : CpmmKeys
cpmm_keys = record {
  pool = 40;
  input_mint = Sent.native_sol_mint;
  output_mint = 4;
  input_ata = 2;
  output_ata = 3;
  memo_program = Sent.memo_program;
  token22 = Sent.token22_program;
  amm_config = 41;
}
