-- ===== src/Router/Legacy/Safety.antt =====
-- route_pump_to_dlmm.rs and route_dlmm_to_pump.rs: indices into the account list.
use solana_atomic_arbitrage.Base.{
  ℕ, ◌+◌, ◌≤◌, ◌<◌, ◌≡◌, Bool, true, false, List, length, ltb, ltb→le, arith,
}
use solana_atomic_arbitrage.Router.Error.{arb_err}
use solana_atomic_arbitrage.Router.Instruction.{RouteArgs, parse_args-Safe}
use solana_atomic_arbitrage.Router.Types.{
  AccountInfo, Instruction, Runtime, KeepsLength, ok, fail_if,
}
use solana_atomic_arbitrage.Router.Results.{
  Safe, >>=-Safe, >>-Safe, fail_if-Safe, ok_or-Safe, account-Safe, >>=-eq-ok, fail_if-eq-ok,
  ok_or-eq-ok,
}
use solana_atomic_arbitrage.Router.Dex.Checks.{require_keys-Safe}
use solana_atomic_arbitrage.Router.Dex.Dlmm.{require_oracle-Safe}
use solana_atomic_arbitrage.Router.Cpi.PumpSwap.{build_buy, build_sell}
use solana_atomic_arbitrage.Router.Cpi.Dlmm.{build_swap2}
use solana_atomic_arbitrage.Router.Legs.Safety.{build_buy-Safe, build_sell-Safe, build_swap2-Safe}
use solana_atomic_arbitrage.Router.Trade.Safety.{trade-Safe}
use solana_atomic_arbitrage.Router.Legacy.Shared.{check_counts, ordered, invoke_pump, invoke_dlmm}
use solana_atomic_arbitrage.Router.Legacy.PumpToDlmm
use solana_atomic_arbitrage.Router.Legacy.DlmmToPump

check_counts-Safe : (pump bins : ℕ) → Safe (check_counts pump bins)
unfolding check_counts
check_counts-Safe pump bins = fail_if-Safe _ _

module _ (rt : Runtime) (ix : Instruction) (accounts : List AccountInfo) where
  invoke_pump-Safe : Safe (invoke_pump rt ix accounts)
  unfolding invoke_pump
  invoke_pump-Safe = ok_or-Safe _ _

  invoke_dlmm-Safe : Safe (invoke_dlmm rt ix accounts)
  unfolding invoke_dlmm
  invoke_dlmm-Safe = ok_or-Safe _ _

  invoke_pump-length :
      {after : List AccountInfo}
      → KeepsLength rt
      → invoke_pump rt ix accounts ≡ ok after
      → length after ≡ length accounts
  unfolding invoke_pump
  invoke_pump-length keeps h = keeps ix accounts _ (ok_or-eq-ok _ _ h)

  invoke_dlmm-length :
      {after : List AccountInfo}
      → KeepsLength rt
      → invoke_dlmm rt ix accounts ≡ ok after
      → length after ≡ length accounts
  unfolding invoke_dlmm
  invoke_dlmm-length keeps h = keeps ix accounts _ (ok_or-eq-ok _ _ h)

module _ (rt : Runtime) (accounts : List AccountInfo) (args : RouteArgs) where
  pump_check_accounts-Safe :
      PumpToDlmm.total_expected args ≤ length accounts
      → Safe (PumpToDlmm.check_accounts rt accounts args)
  unfolding PumpToDlmm.check_accounts
  pump_check_accounts-Safe h = >>-Safe (require_keys-Safe accounts _ (omega arith)) (
      >>=-Safe (account-Safe accounts 0 (omega arith)) λ user _. >>-Safe (fail_if-Safe _ _) (
        >>-Safe (require_keys-Safe accounts _ (omega arith))
          (require_oracle-Safe rt accounts _ _ (omega arith))))

  dlmm_check_accounts-Safe :
      DlmmToPump.total_expected args ≤ length accounts
      → Safe (DlmmToPump.check_accounts rt accounts args)
  unfolding DlmmToPump.check_accounts
  dlmm_check_accounts-Safe h = >>-Safe (require_keys-Safe accounts _ (omega arith)) (
      >>=-Safe (account-Safe accounts 0 (omega arith)) λ user _. >>-Safe (fail_if-Safe _ _) (
        >>-Safe (require_keys-Safe accounts _ (omega arith)) (
          >>-Safe (require_oracle-Safe rt accounts _ _ (omega arith))
            (require_keys-Safe accounts _ (omega arith)))))

-- Either order of two indices in range is in range.
ordered_lt :
    (flag : Bool) (i j n : ℕ)
    → i < n
    → j < n
    → ((ordered flag i j).0 < n) × ((ordered flag i j).1 < n)
ordered_lt true i j n p q = (p, q)
ordered_lt false i j n p q = (q, p)

module _ (rt : Runtime) (args : RouteArgs) (accounts : List AccountInfo) where
  pump_buy_leg-Safe :
      PumpToDlmm.total_expected args ≤ length accounts → Safe (PumpToDlmm.buy_leg rt args accounts)
  unfolding PumpToDlmm.buy_leg
  pump_buy_leg-Safe h =
      >>=-Safe (build_buy-Safe accounts 3 _ _ _ args.track_volume (omega arith))
        (λ ix _. invoke_pump-Safe rt ix accounts)

  pump_sell_leg-Safe :
      (received : ℕ)
      → PumpToDlmm.total_expected args ≤ length accounts
      → Safe (PumpToDlmm.sell_leg rt args received accounts)
  unfolding PumpToDlmm.sell_leg
  pump_sell_leg-Safe received h =
      let mints = ordered_lt args.sol_is_x 7 6 (length accounts) (omega arith) (omega arith) in
      let progs = ordered_lt args.sol_is_x 15 14 (length accounts) (omega arith) (omega arith) in
      >>=-Safe
        (build_swap2-Safe accounts (PumpToDlmm.dlmm_base args) received _ _ _ _ 2 1
          args.second_count (omega arith) (omega arith) mints.0 mints.1 progs.0 progs.1
          (omega arith) (omega arith))
        (λ ix _. invoke_dlmm-Safe rt ix accounts)

  dlmm_buy_leg-Safe :
      DlmmToPump.total_expected args ≤ length accounts → Safe (DlmmToPump.buy_leg rt args accounts)
  unfolding DlmmToPump.buy_leg
  dlmm_buy_leg-Safe h =
      let base = DlmmToPump.pump_sell_base args in
      let mints =
        ordered_lt args.sol_is_x (base + 4) (base + 3) (length accounts) (omega arith)
          (omega arith) in
      let progs =
        ordered_lt args.sol_is_x (base + 12) (base + 11) (length accounts) (omega arith)
          (omega arith) in
      >>=-Safe
        (build_swap2-Safe accounts 3 args.amount_in _ _ _ _ 1 2 args.second_count (omega arith)
          (omega arith) mints.0 mints.1 progs.0 progs.1 (omega arith) (omega arith))
        (λ ix _. invoke_dlmm-Safe rt ix accounts)

  dlmm_sell_leg-Safe :
      (received : ℕ)
      → DlmmToPump.total_expected args ≤ length accounts
      → Safe (DlmmToPump.sell_leg rt args received accounts)
  unfolding DlmmToPump.sell_leg
  dlmm_sell_leg-Safe received h =
      >>=-Safe
        (build_sell-Safe accounts (DlmmToPump.pump_sell_base args) _ received _ (omega arith))
        (λ ix _. invoke_pump-Safe rt ix accounts)

  module _ (keeps : KeepsLength rt) {after : List AccountInfo} where
    pump_buy_leg-length :
        PumpToDlmm.buy_leg rt args accounts ≡ ok after → length after ≡ length accounts
    unfolding PumpToDlmm.buy_leg
    pump_buy_leg-length h =
        let (ix, _, called) = >>=-eq-ok (build_buy accounts _ _ _ _ _ _) _ h in
        invoke_pump-length rt ix accounts keeps called

    dlmm_buy_leg-length :
        DlmmToPump.buy_leg rt args accounts ≡ ok after → length after ≡ length accounts
    unfolding DlmmToPump.buy_leg
    dlmm_buy_leg-length h =
        let (ix, _, called) = >>=-eq-ok (build_swap2 accounts _ _ _ _ _ _ _ _ _ _) _ h in
        invoke_dlmm-length rt ix accounts keeps called

    pump_sell_leg-length :
        (received : ℕ)
        → PumpToDlmm.sell_leg rt args received accounts ≡ ok after
        → length after ≡ length accounts
    unfolding PumpToDlmm.sell_leg
    pump_sell_leg-length received h =
        let (ix, _, called) = >>=-eq-ok (build_swap2 accounts _ _ _ _ _ _ _ _ _ _) _ h in
        invoke_dlmm-length rt ix accounts keeps called

    dlmm_sell_leg-length :
        (received : ℕ)
        → DlmmToPump.sell_leg rt args received accounts ≡ ok after
        → length after ≡ length accounts
    unfolding DlmmToPump.sell_leg
    dlmm_sell_leg-length received h =
        let (ix, _, called) = >>=-eq-ok (build_sell accounts _ _ _ _ _) _ h in
        invoke_pump-length rt ix accounts keeps called

counted_le :
    (n total code : ℕ) {u : Unit {0}} → fail_if (ltb n total) (arb_err code) ≡ ok u → total ≤ n
counted_le n total code h = ltb→le n total (fail_if-eq-ok (ltb n total) (arb_err code) h)

module _ (rt : Runtime) (accounts : List AccountInfo) (bytes : List ℕ)
    (keeps : KeepsLength rt) where
  -- The PumpSwap to DLMM handler ends by a result or an error code.
  pub pump_to_dlmm-Safe : Safe (PumpToDlmm.handle rt accounts bytes)
  unfolding PumpToDlmm.handle
  pump_to_dlmm-Safe = >>=-Safe (parse_args-Safe bytes) λ args _.
      >>-Safe (check_counts-Safe args.first_count args.second_count) (
        >>=-Safe (fail_if-Safe _ _) λ _ counted.
          let fits = counted_le (length accounts) (PumpToDlmm.total_expected args) _ counted in
          >>-Safe (pump_check_accounts-Safe rt accounts args fits) (
            trade-Safe _ _ args.min_profit accounts (omega arith)
              (pump_buy_leg-Safe rt args accounts fits)
              (λ bought. pump_buy_leg-length rt args accounts keeps)
              (λ received bought same. pump_sell_leg-Safe rt args bought received (omega arith))
              (λ received bought sold. pump_sell_leg-length rt args bought keeps received)))

  -- The DLMM to PumpSwap handler ends by a result or an error code.
  pub dlmm_to_pump-Safe : Safe (DlmmToPump.handle rt accounts bytes)
  unfolding DlmmToPump.handle
  dlmm_to_pump-Safe = >>=-Safe (parse_args-Safe bytes) λ args _.
      >>-Safe (check_counts-Safe args.first_count args.second_count) (
        >>=-Safe (fail_if-Safe _ _) λ _ counted.
          let fits = counted_le (length accounts) (DlmmToPump.total_expected args) _ counted in
          >>-Safe (dlmm_check_accounts-Safe rt accounts args fits) (
            trade-Safe _ _ args.min_profit accounts (omega arith)
              (dlmm_buy_leg-Safe rt args accounts fits)
              (λ bought. dlmm_buy_leg-length rt args accounts keeps)
              (λ received bought same. dlmm_sell_leg-Safe rt args bought received (omega arith))
              (λ received bought sold. dlmm_sell_leg-length rt args bought keeps received)))
