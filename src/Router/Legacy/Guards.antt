-- ===== src/Router/Legacy/Guards.antt =====
-- route_pump_to_dlmm.rs and route_dlmm_to_pump.rs: the checks and the trade of a route that succeeds.
use solana_atomic_arbitrage.Base.{
  ℕ, ◌≤◌, ◌≡◌, Bool, true, false, not, List, All, length, ltb, ltb→le, refl,
}
use solana_atomic_arbitrage.Router.Constants
use solana_atomic_arbitrage.Router.Dex.Checks.{require_keys, require_keys-CheckHolds, CheckHolds}
use solana_atomic_arbitrage.Router.Dex.Dlmm.{require_oracle}
use solana_atomic_arbitrage.Router.Instruction.{RouteArgs, parse_args}
use solana_atomic_arbitrage.Router.Legacy.DlmmToPump
use solana_atomic_arbitrage.Router.Legacy.PumpToDlmm
use solana_atomic_arbitrage.Router.Legacy.Shared.{check_counts}
use solana_atomic_arbitrage.Router.Results.{>>=-eq-ok, >>-eq-ok, fail_if-eq-ok}
use solana_atomic_arbitrage.Router.Trade.Profit.{Completed, trade-Completed}
use solana_atomic_arbitrage.Router.Types.{AccountInfo, Runtime, ok, fail_if, account}

-- The user's account has signed.
abbrev pub UserSigned : List AccountInfo → Type 0
UserSigned accounts =
    (user : AccountInfo) × (account accounts Constants.user_idx ≡ ok user) × (user.is_signer ≡ true)

unnegated : (b : Bool) → not b ≡ false → b ≡ true
unnegated true h = refl
unnegated false h = cc

module _ (rt : Runtime) (accounts : List AccountInfo) where
  -- A PumpSwap-to-DLMM route that succeeds: the account count, the keys at the fixed places, the
  -- signature, the oracle, and a completed trade over the two legs.
  pub record BoughtOnPump (bytes : List ℕ) (final : List AccountInfo) : Type 0 where
    pub args : RouteArgs
    pub parsed : parse_args bytes ≡ ok args
    pub counted : check_counts args.first_count args.second_count ≡ ok tt
    pub enough : PumpToDlmm.total_expected args ≤ length accounts
    pub programs : All (CheckHolds accounts) (PumpToDlmm.program_checks rt accounts args)
    pub signed : UserSigned accounts
    pub derived : All (CheckHolds accounts) (PumpToDlmm.pda_checks rt accounts args)
    pub oracle : require_oracle rt accounts (PumpToDlmm.dlmm_base args) args.second_count ≡ ok tt
    pub completed :
        Completed
          (PumpToDlmm.buy_leg rt args)
          (PumpToDlmm.sell_leg rt args)
          args.min_profit
          accounts
          final

  -- A PumpSwap-to-DLMM route that succeeds has parsed data, counts and account list in bounds, the
  -- expected programs, mint and derived addresses, the user's signature, and a completed trade
  -- over its two legs.
  pub pump_to_dlmm-BoughtOnPump :
      (bytes : List ℕ) {final : List AccountInfo}
      → PumpToDlmm.handle rt accounts bytes ≡ ok final
      → BoughtOnPump bytes final
  unfolding PumpToDlmm.handle PumpToDlmm.check_accounts
  pump_to_dlmm-BoughtOnPump bytes h =
      let (args, parsed, h₁) = >>=-eq-ok (parse_args bytes) _ h in
      let (counted, h₂) = >>-eq-ok (check_counts args.first_count args.second_count) _ h₁ in
      let (long, h₃) = >>-eq-ok (fail_if (ltb (length accounts) _) _) _ h₂ in
      let (checked, h₄) = >>-eq-ok _ _ h₃ in
      let (programs, c₁) = >>-eq-ok (require_keys accounts _) _ checked in
      let (user, at, c₂) = >>=-eq-ok (account accounts Constants.user_idx) _ c₁ in
      let (signed, c₃) = >>-eq-ok (fail_if (not user.is_signer) _) _ c₂ in
      let (derived, oracle) = >>-eq-ok (require_keys accounts _) _ c₃ in
      record {
        args = args;
        parsed = parsed;
        counted = counted;
        enough = ltb→le _ _ (fail_if-eq-ok _ _ long);
        programs = require_keys-CheckHolds accounts _ programs;
        signed = (user, at, unnegated user.is_signer (fail_if-eq-ok _ _ signed));
        derived = require_keys-CheckHolds accounts _ derived;
        oracle = oracle;
        completed = trade-Completed _ _ _ accounts h₄;
      }

  -- A DLMM-to-PumpSwap route that succeeds: the same facts, for its own places and legs.
  pub record BoughtOnDlmm (bytes : List ℕ) (final : List AccountInfo) : Type 0 where
    pub args : RouteArgs
    pub parsed : parse_args bytes ≡ ok args
    pub counted : check_counts args.first_count args.second_count ≡ ok tt
    pub enough : DlmmToPump.total_expected args ≤ length accounts
    pub programs : All (CheckHolds accounts) (DlmmToPump.program_checks rt accounts args)
    pub signed : UserSigned accounts
    pub dlmm : All (CheckHolds accounts) (DlmmToPump.dlmm_checks rt accounts args)
    pub oracle : require_oracle rt accounts DlmmToPump.dlmm_base args.second_count ≡ ok tt
    pub derived : All (CheckHolds accounts) (DlmmToPump.pump_pda_checks rt accounts args)
    pub completed :
        Completed
          (DlmmToPump.buy_leg rt args)
          (DlmmToPump.sell_leg rt args)
          args.min_profit
          accounts
          final

  -- A DLMM-to-PumpSwap route that succeeds has parsed data, counts and account list in bounds, the
  -- expected programs, mint and derived addresses, the user's signature, and a completed trade
  -- over its two legs.
  pub dlmm_to_pump-BoughtOnDlmm :
      (bytes : List ℕ) {final : List AccountInfo}
      → DlmmToPump.handle rt accounts bytes ≡ ok final
      → BoughtOnDlmm bytes final
  unfolding DlmmToPump.handle DlmmToPump.check_accounts
  dlmm_to_pump-BoughtOnDlmm bytes h =
      let (args, parsed, h₁) = >>=-eq-ok (parse_args bytes) _ h in
      let (counted, h₂) = >>-eq-ok (check_counts args.first_count args.second_count) _ h₁ in
      let (long, h₃) = >>-eq-ok (fail_if (ltb (length accounts) _) _) _ h₂ in
      let (checked, h₄) = >>-eq-ok _ _ h₃ in
      let (programs, c₁) = >>-eq-ok (require_keys accounts _) _ checked in
      let (user, at, c₂) = >>=-eq-ok (account accounts Constants.user_idx) _ c₁ in
      let (signed, c₃) = >>-eq-ok (fail_if (not user.is_signer) _) _ c₂ in
      let (dlmm, c₄) = >>-eq-ok (require_keys accounts _) _ c₃ in
      let (oracle, derived) = >>-eq-ok (require_oracle rt accounts _ _) _ c₄ in
      record {
        args = args;
        parsed = parsed;
        counted = counted;
        enough = ltb→le _ _ (fail_if-eq-ok _ _ long);
        programs = require_keys-CheckHolds accounts _ programs;
        signed = (user, at, unnegated user.is_signer (fail_if-eq-ok _ _ signed));
        dlmm = require_keys-CheckHolds accounts _ dlmm;
        oracle = oracle;
        derived = require_keys-CheckHolds accounts _ derived;
        completed = trade-Completed _ _ _ accounts h₄;
      }
