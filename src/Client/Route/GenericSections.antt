-- ===== src/Client/Route/GenericSections.antt =====
-- src/executor/atomic/generic_route.rs: the CPMM, Whirlpool and DLMM sections of a generic route.
use solana_atomic_arbitrage.Base.{
  ℕ, ◌-◌, true, false, List, [], ◌∷◌, ◌++◌, length, take, replicate, min,
}
use solana_atomic_arbitrage.Client.Constants
use solana_atomic_arbitrage.Client.Route.Sections.{DlmmKeys, dlmm_fixed, writable_all}
use solana_atomic_arbitrage.Router.Types.{Pubkey, AccountMeta, Runtime, writable, readonly, as_ref}

-- "vault_and_lp"
abbrev vault_and_lp_seed : List ℕ
vault_and_lp_seed = 118 ∷ 97 ∷ 117 ∷ 108 ∷ 116 ∷ 95 ∷ 97 ∷ 110 ∷ 100 ∷ 95 ∷ 108 ∷ 112 ∷ []

-- "pool_vault"
abbrev pool_vault_seed : List ℕ
pool_vault_seed = 112 ∷ 111 ∷ 111 ∷ 108 ∷ 95 ∷ 118 ∷ 97 ∷ 117 ∷ 108 ∷ 116 ∷ []

-- "authority"
abbrev authority_seed : List ℕ
authority_seed = 97 ∷ 117 ∷ 116 ∷ 104 ∷ 111 ∷ 114 ∷ 105 ∷ 116 ∷ 121 ∷ []

-- "oracle"
abbrev pub oracle_seed : List ℕ
oracle_seed = 111 ∷ 114 ∷ 97 ∷ 99 ∷ 108 ∷ 101 ∷ []

-- `tokenkeg_cl()`
abbrev pub tokenkeg_cl : Pubkey
tokenkeg_cl = Constants.token_program

-- What push_cpmm_accounts takes and uses; the two token programs that it ignores are left out.
pub record CpmmKeys : Type 0 where
  pub pool : Pubkey
  pub input_mint : Pubkey
  pub output_mint : Pubkey
  pub input_ata : Pubkey
  pub output_ata : Pubkey
  pub memo_program : Pubkey
  pub token22 : Pubkey
  pub amm_config : Pubkey

unfoldable pub cpmm_section : Runtime → CpmmKeys → List AccountMeta
cpmm_section rt c =
    readonly Constants.cpmm_program false
    ∷ readonly
        (rt.find_program_address (vault_and_lp_seed ∷ as_ref c.pool ∷ []) Constants.cpmm_program)
        false
    ∷ readonly c.amm_config false
    ∷ writable c.pool false
    ∷ writable c.input_ata false
    ∷ writable c.output_ata false
    ∷ writable
        (rt.find_program_address (pool_vault_seed ∷ as_ref c.pool ∷ as_ref c.input_mint ∷ [])
          Constants.cpmm_program)
        false
    ∷ writable
        (rt.find_program_address (pool_vault_seed ∷ as_ref c.pool ∷ as_ref c.output_mint ∷ [])
          Constants.cpmm_program)
        false
    ∷ readonly c.input_mint false
    ∷ readonly c.output_mint false
    ∷ readonly tokenkeg_cl false
    ∷ readonly c.token22 false
    ∷ readonly c.memo_program false
    ∷ []

unfoldable pub push_cpmm_accounts : Runtime → CpmmKeys → List AccountMeta → List AccountMeta
push_cpmm_accounts rt c accounts = accounts ++ cpmm_section rt c

-- What push_whirlpool_accounts takes; the tick count is that of the arrays.
pub record WhirlpoolKeys : Type 0 where
  pub pool : Pubkey
  pub input_ata : Pubkey
  pub output_ata : Pubkey
  pub vault_a : Pubkey
  pub vault_b : Pubkey
  pub tick_arrays : List Pubkey

unfoldable pub whirlpool_section : Runtime → WhirlpoolKeys → List AccountMeta
whirlpool_section rt w =
    let wp = Constants.whirlpool_program in
    let tc = min (length w.tick_arrays) 3 in
    readonly wp false
    ∷ readonly (rt.find_program_address (authority_seed ∷ []) wp) true
    ∷ writable w.pool false
    ∷ writable w.input_ata false
    ∷ writable w.vault_a false
    ∷ writable w.output_ata false
    ∷ writable w.vault_b false
    ∷ (writable_all (take tc w.tick_arrays)
        ++ (replicate (3 - tc) (writable wp false)
            ++ readonly (rt.find_program_address (oracle_seed ∷ as_ref w.pool ∷ []) wp) false
              ∷ readonly tokenkeg_cl false
              ∷ []))

unfoldable pub push_whirlpool_accounts :
    Runtime → WhirlpoolKeys → List AccountMeta → List AccountMeta
push_whirlpool_accounts rt w accounts = accounts ++ whirlpool_section rt w

-- The token mints and programs at places 9 to 12.
pub record DlmmTokens : Type 0 where
  pub token_x_mint : Pubkey
  pub token_y_mint : Pubkey
  pub token_x_program : Pubkey
  pub token_y_program : Pubkey

unfoldable pub push_dlmm_generic_accounts :
    DlmmKeys → DlmmTokens → List Pubkey → List AccountMeta → List AccountMeta
push_dlmm_generic_accounts d t bin_arrays accounts =
    accounts
    ++ (dlmm_fixed d
        ++ (readonly t.token_x_mint false
            ∷ readonly t.token_y_mint false
            ∷ readonly t.token_x_program false
            ∷ readonly t.token_y_program false
            ∷ writable_all bin_arrays))
