-- ===== src/Client/Route/Accepted/Address.antt =====
-- What the two routes share: the addresses that a pool has to have, and the checks on counts.
use solana_atomic_arbitrage.Base.{ℕ, ◌≤◌, ◌<◌, ◌≡◌, [], ◌∷◌, false, ltb, arith}
use solana_atomic_arbitrage.Client.Constants as Sent
use solana_atomic_arbitrage.Client.Route.Sections.{RouteKeys, DlmmKeys}
use solana_atomic_arbitrage.Router.Constants
use solana_atomic_arbitrage.Router.Legacy.Shared.{check_counts, event_authority, global_config}
use solana_atomic_arbitrage.Router.Types.{ok, fail_if, Runtime, as_ref}

-- The mint, the programs and the derived addresses that the handlers compare with; the last two say
-- that the addresses which the client has as constants are the derived ones.
pub record WellAddressed (rt : Runtime) (k : RouteKeys) (d : DlmmKeys) : Type 0 where
  pub sol_mint_eq : k.sol_mint ≡ Constants.native_sol_mint
  pub quote_program_eq : k.quote_token_program ≡ Constants.token_id
  pub dlmm_program_eq : d.dlmm_program ≡ Constants.dlmm_id
  pub memo_eq : d.memo_program ≡ Constants.memo_id
  pub event_auth_eq : d.event_auth ≡ Constants.dlmm_event_auth
  pub oracle_eq :
      d.oracle
      ≡ rt.find_program_address
          (Constants.dlmm_oracle_seed ∷ as_ref d.lb_pair ∷ [])
          Constants.dlmm_id
  pub pump_event_eq : event_authority rt ≡ Sent.pumpswap_event_authority
  pub pump_config_eq : global_config rt ≡ Sent.pumpswap_global_config

pub check_counts-ok : (pump bin : ℕ) → pump ≤ 5 → 0 < bin → bin ≤ 5 → check_counts pump bin ≡ ok tt
unfolding check_counts fail_if
check_counts-ok pump bin hp hb hl = ground arith

pub not_short : (n m : ℕ) → n ≡ m → ltb n m ≡ false
not_short n m h = ground arith
