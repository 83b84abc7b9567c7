-- ===== src/Client/Route/Accepted/Generic.antt =====
-- The client's CPMM section against instructions/dex_cpmm.rs.
use solana_atomic_arbitrage.Base.{
  ℕ, ◌+◌, ◌≡◌, ◌∙◌, sym, ap, subst, refl, false, List, [], ◌∷◌, ◌++◌, length, get_elem?, some,
  get_elem?-append_past, ◌/=◌, ◌&&◌, arith,
}
use solana_atomic_arbitrage.Client.Constants as Sent
use solana_atomic_arbitrage.Client.Route.Accepted.{Loaded, Loaded-account, require_key-Loaded}
use solana_atomic_arbitrage.Client.Route.GenericSections.{
  CpmmKeys, cpmm_section, push_cpmm_accounts,
}
use solana_atomic_arbitrage.Router.Constants
use solana_atomic_arbitrage.Router.Dex.Checks.{require_either, require_owner}
use solana_atomic_arbitrage.Router.Dex.Cpmm.{validate_section, require_authority, token22}
use solana_atomic_arbitrage.Router.Types.{
  Pubkey, AccountInfo, AccountMeta, Runtime, ok, ◌>>=◌, fail_if, account, as_ref, readonly,
}
use solana_atomic_arbitrage.Router.Error.{arb_bad_program, arb_bad_pda}
use solana_atomic_arbitrage.Router.Results.{ok-injective}

require_either-first :
    {ms : List AccountMeta} {accounts : List AccountInfo}
    → Loaded ms accounts
    → (i : ℕ) (key other : Pubkey) (code : ℕ) {m : AccountMeta} → get_elem? ms i ≡ some m
    → m.pubkey ≡ key
    → require_either accounts i key other code ≡ ok tt
unfolding require_either ◌>>=◌ fail_if
require_either-first l i key other code h e =
    let (a, found, same, _) = Loaded-account l i h in
    rw (found, passes a.key key other (same ∙ e)) refl
  where
    passes : (k m n : ℕ) → k ≡ m → (k /= m && k /= n) ≡ false
    passes k m n h = ground arith

require_either-second :
    {ms : List AccountMeta} {accounts : List AccountInfo}
    → Loaded ms accounts
    → (i : ℕ) (key other : Pubkey) (code : ℕ) {m : AccountMeta} → get_elem? ms i ≡ some m
    → m.pubkey ≡ other
    → require_either accounts i key other code ≡ ok tt
unfolding require_either ◌>>=◌ fail_if
require_either-second l i key other code h e =
    let (a, found, same, _) = Loaded-account l i h in
    rw (found, passes a.key key other (same ∙ e)) refl
  where
    passes : (k m n : ℕ) → k ≡ n → (k /= m && k /= n) ≡ false
    passes k m n h = ground arith

module _ (rt : Runtime) (c : CpmmKeys) (before : List AccountMeta) where
  -- What stands at a place of the section.
  at_section :
      (base r : ℕ) {m : AccountMeta}
      → length before ≡ base
      → get_elem? (cpmm_section rt c) r ≡ some m
      → get_elem? (push_cpmm_accounts rt c before) (base + r) ≡ some m
  unfolding push_cpmm_accounts
  at_section base r {m = m} h e =
      subst (λ n. get_elem? (before ++ cpmm_section rt c) (n + r) ≡ some m) h
        (get_elem?-append_past before (cpmm_section rt c) r ∙ e)

  at_start :
      (base : ℕ)
      → length before ≡ base
      → get_elem? (push_cpmm_accounts rt c before) base ≡ some (readonly Sent.cpmm_program false)
  unfolding cpmm_section
  at_start base h =
      subst
        (λ n.
          get_elem? (push_cpmm_accounts rt c before) n ≡ some (readonly Sent.cpmm_program false))
        {x = base + 0} {y = base} (omega arith) (at_section base 0 h refl)

-- A CPMM section that the client appends at a base passes the router's validation of it, if the
-- memo program and Token-2022 are the known ones and the pool account belongs to the CPMM program.
pub validate_section-push_cpmm_accounts :
    (rt : Runtime) (c : CpmmKeys) (before : List AccountMeta) (accounts : List AccountInfo)
    (base remaining : ℕ) (pool : AccountInfo)
    → Loaded (push_cpmm_accounts rt c before) accounts
    → length before ≡ base
    → c.memo_program ≡ Constants.memo_id
    → c.token22 ≡ token22
    → account accounts (base + 3) ≡ ok pool
    → pool.owner ≡ Constants.cpmm_id
    → validate_section rt accounts base remaining ≡ ok tt
unfolding validate_section require_authority require_owner ◌>>=◌ fail_if push_cpmm_accounts
    cpmm_section
validate_section-push_cpmm_accounts rt c before accounts base remaining pool l based memo t22
      pool_at owned =
    let (config, config_at, _, _) =
      Loaded-account l (base + 2) (at_section rt c before base 2 based refl) in
    let (pool', found, key_eq, _) =
      Loaded-account l (base + 3) (at_section rt c before base 3 based refl) in
    let pool_key = ap (λ a. a.key) (ok-injective (sym found ∙ pool_at)) in
    let authority =
      require_key-Loaded l (base + 1)
        (rt.find_program_address (Constants.cpmm_auth_seed ∷ as_ref pool.key ∷ [])
          Constants.cpmm_id)
        arb_bad_pda (at_section rt c before base 1 based refl)
        (ap
          (λ key.
            rt.find_program_address (Constants.cpmm_auth_seed ∷ as_ref key ∷ []) Constants.cpmm_id)
          (sym key_eq ∙ pool_key)) in
    rw
      (
        require_key-Loaded l base Constants.cpmm_id arb_bad_program
            (at_start rt c before base based) refl,
        config_at,
        require_either-first l (base + 10) Constants.token_id token22 arb_bad_program
            (at_section rt c before base 10 based refl) refl,
        require_either-second l (base + 11) Constants.token_id token22 arb_bad_program
            (at_section rt c before base 11 based refl) t22,
        require_key-Loaded l (base + 12) Constants.memo_id arb_bad_program
            (at_section rt c before base 12 based refl) memo,
        pool_at,
        authority,
        same_owner pool.owner Constants.cpmm_id owned,
      )
      refl
  where
    same_owner : (m n : ℕ) → m ≡ n → (m /= n) ≡ false
    same_owner m n h = ground arith
