-- ===== src/Router/Orchestrate/Safety.antt =====
-- orchestrate.rs, `handle`: indices into the account list and the data.
use solana_atomic_arbitrage.Base.{
  ℕ, ◌+◌, ◌≤◌, ◌≡◌, refl, ap, ◌∙◌, subst, some, false, List, length, ltb, ltb→le, arith,
}
use solana_atomic_arbitrage.Router.Instruction.{RouteArgs, parse_args-Safe}
use solana_atomic_arbitrage.Router.Types.{AccountInfo, Runtime, KeepsLength, ok, fail_if, ok_or}
use solana_atomic_arbitrage.Router.Results.{
  Safe, safe_ok, >>=-Safe, >>-Safe, fail_if-Safe, ok_or-Safe, account-Safe, >>=-eq-ok, >>-eq-ok,
  fail_if-eq-ok, ok_or-eq-ok, ok-injective,
}
use solana_atomic_arbitrage.Router.Dex.Kind.{
  fixed_len, same_kind, identify_dex, identify_dex-Safe, validate_dex_section-Safe,
}
use solana_atomic_arbitrage.Router.Legs.Safety.{
  execute_buy_leg-Safe, execute_sell_leg-Safe, execute_buy_leg-length, execute_sell_leg-length,
}
use solana_atomic_arbitrage.Router.Trade.Safety.{trade-Safe}
use solana_atomic_arbitrage.Router.Orchestrate.{
  Route, buy_base, locate, validate, run_route, handle,
}

locate-Safe : (accounts : List AccountInfo) (args : RouteArgs) → Safe (locate accounts args)
unfolding locate
locate-Safe accounts args = >>=-Safe (identify_dex-Safe accounts buy_base) λ _ _.
    >>=-Safe (ok_or-Safe _ _) λ buy_kind _. >>=-Safe (identify_dex-Safe accounts _) λ _ _.
      >>=-Safe (ok_or-Safe _ _)
        λ sell_kind _. >>-Safe (fail_if-Safe _ _) (>>-Safe (fail_if-Safe _ _) (safe_ok _))

module _ (accounts : List AccountInfo) (args : RouteArgs) where
  -- A located route: its two probes, its two different kinds, and the account count.
  pub record Located (route : Route) : Type 0 where
    pub buy_found : identify_dex accounts buy_base ≡ ok (some route.buy_kind)
    pub sell_found : identify_dex accounts route.sell_base ≡ ok (some route.sell_kind)
    pub differ : same_kind route.buy_kind route.sell_kind ≡ false
    pub sell_at : route.sell_base ≡ 3 + (fixed_len route.buy_kind + args.first_count)
    pub fits : route.sell_base + fixed_len route.sell_kind + args.second_count ≤ length accounts

  pub locate-Located : {route : Route} → locate accounts args ≡ ok route → Located route
  unfolding locate
  locate-Located {route} h =
      let (buy?, e₁, h₁) = >>=-eq-ok (identify_dex accounts buy_base) _ h in
      let (buy, e₂, h₂) = >>=-eq-ok (ok_or buy? _) _ h₁ in
      let (sell?, e₃, h₃) = >>=-eq-ok (identify_dex accounts _) _ h₂ in
      let (sell, e₄, h₄) = >>=-eq-ok (ok_or sell? _) _ h₃ in
      let (e₅, h₅) = >>-eq-ok (fail_if (same_kind buy sell) _) _ h₄ in
      let (e₆, done) = >>-eq-ok (fail_if (ltb (length accounts) _) _) _ h₅ in
      subst Located (ok-injective done) (record {
        buy_found = e₁ ∙ ap ok (ok_or-eq-ok _ _ e₂);
        sell_found = e₃ ∙ ap ok (ok_or-eq-ok _ _ e₄);
        differ = fail_if-eq-ok _ _ e₅;
        sell_at = refl;
        fits = ltb→le _ _ (fail_if-eq-ok _ _ e₆);
      })

module _ (rt : Runtime) (accounts : List AccountInfo) (args : RouteArgs) (route : Route) where
  validate-Safe : Located accounts args route → Safe (validate rt accounts args route)
  unfolding validate
  validate-Safe l = >>=-Safe (account-Safe accounts 0 (omega arith)) λ user _.
      >>-Safe (fail_if-Safe _ _) (
        >>-Safe
          (validate_dex_section-Safe rt accounts route.buy_kind 3 args.first_count (omega arith))
          (validate_dex_section-Safe rt accounts route.sell_kind route.sell_base args.second_count
            (omega arith)))

  run_route-Safe :
      KeepsLength rt → Located accounts args route → Safe (run_route rt accounts args route)
  unfolding run_route
  run_route-Safe keeps l =
      trade-Safe _ _ args.min_profit accounts (omega arith)
        (execute_buy_leg-Safe rt accounts 3 args.first_count args.amount_in args.min_intermediate
          args.sol_is_x route.buy_kind (omega arith) (omega arith))
        (λ bought.
          execute_buy_leg-length rt accounts 3 args.first_count args.amount_in args.min_intermediate
            args.sol_is_x route.buy_kind keeps)
        (λ received bought same.
          execute_sell_leg-Safe rt bought route.sell_base args.second_count received 1 args.sol_is_x
            route.sell_kind (omega arith) (omega arith))
        (λ received bought sold.
          execute_sell_leg-length rt bought route.sell_base args.second_count received 1
            args.sol_is_x route.sell_kind keeps)

-- The generic handler ends by a result or by an error code, for every account list and all data.
pub handle-Safe :
    (rt : Runtime) (accounts : List AccountInfo) (bytes : List ℕ)
    → KeepsLength rt
    → Safe (handle rt accounts bytes)
unfolding handle
handle-Safe rt accounts bytes keeps = >>=-Safe (parse_args-Safe bytes) λ args _.
    >>=-Safe (locate-Safe accounts args) λ route located.
      let l = locate-Located accounts args located in
      >>-Safe (validate-Safe rt accounts args route l)
        (run_route-Safe rt accounts args route keeps l)
