-- ===== src/Router/Orchestrate/Guards.antt =====
-- orchestrate.rs, `handle`: the checks and the trade of a route that succeeds.
use solana_atomic_arbitrage.Base.{ℕ, ◌≡◌, Bool, true, false, not, List, refl}
use solana_atomic_arbitrage.Router.Constants
use solana_atomic_arbitrage.Router.Dex.Kind.{validate_dex_section}
use solana_atomic_arbitrage.Router.Instruction.{RouteArgs, parse_args}
use solana_atomic_arbitrage.Router.Legs.{execute_buy_leg, execute_sell_leg}
use solana_atomic_arbitrage.Router.Orchestrate.{
  Route, buy_base, locate, validate, run_route, handle,
}
use solana_atomic_arbitrage.Router.Orchestrate.Safety.{Located, locate-Located}
use solana_atomic_arbitrage.Router.Results.{>>=-eq-ok, >>-eq-ok, fail_if-eq-ok}
use solana_atomic_arbitrage.Router.Trade.Profit.{Completed, trade-Completed}
use solana_atomic_arbitrage.Router.Types.{AccountInfo, Runtime, ok, fail_if, account}

module _ (rt : Runtime) (accounts : List AccountInfo) where
  pub record Validated (args : RouteArgs) (route : Route) : Type 0 where
    pub user : AccountInfo
    pub user_at : account accounts Constants.user_idx ≡ ok user
    pub signed : user.is_signer ≡ true
    pub buy_valid :
        validate_dex_section rt accounts route.buy_kind buy_base args.first_count ≡ ok tt
    pub sell_valid :
        validate_dex_section rt accounts route.sell_kind route.sell_base args.second_count ≡ ok tt

  -- A route that succeeds: parsed data, two located sections of different kinds, a signature, two
  -- valid sections, and a completed trade whose legs are those of the located kinds.
  pub record Admitted (bytes : List ℕ) (final : List AccountInfo) : Type 0 where
    pub args : RouteArgs
    pub route : Route
    pub parsed : parse_args bytes ≡ ok args
    pub located : Located accounts args route
    pub validated : Validated args route
    pub completed :
        Completed
          (λ start.
            execute_buy_leg rt start route.buy_kind buy_base args.first_count args.amount_in
              args.min_intermediate args.sol_is_x)
          (λ received bought.
            execute_sell_leg rt bought route.sell_kind route.sell_base args.second_count received 1
              args.sol_is_x)
          args.min_profit
          accounts
          final

  unnegated : (b : Bool) → not b ≡ false → b ≡ true
  unnegated true h = refl
  unnegated false h = cc

  validate-Validated :
      (args : RouteArgs) (route : Route)
      → validate rt accounts args route ≡ ok tt
      → Validated args route
  unfolding validate
  validate-Validated args route h =
      let (user, at, h₁) = >>=-eq-ok (account accounts Constants.user_idx) _ h in
      let (signed, h₂) = >>-eq-ok (fail_if (not user.is_signer) _) _ h₁ in
      let (buy, sell) = >>-eq-ok (validate_dex_section rt accounts route.buy_kind _ _) _ h₂ in
      record {
        user = user;
        user_at = at;
        signed = unnegated user.is_signer (fail_if-eq-ok _ _ signed);
        buy_valid = buy;
        sell_valid = sell;
      }

  -- A generic route that succeeds has parsed data, two located sections of different kinds within
  -- the account list, a signing user, two valid sections, and a completed trade whose legs are
  -- those of the located kinds.
  pub handle-Admitted :
      (bytes : List ℕ) {final : List AccountInfo}
      → handle rt accounts bytes ≡ ok final
      → Admitted bytes final
  unfolding handle run_route
  handle-Admitted bytes h =
      let (args, parsed, h₁) = >>=-eq-ok (parse_args bytes) _ h in
      let (route, located, h₂) = >>=-eq-ok (locate accounts args) _ h₁ in
      let (valid, traded) = >>-eq-ok (validate rt accounts args route) _ h₂ in
      record {
        args = args;
        route = route;
        parsed = parsed;
        located = locate-Located accounts args located;
        validated = validate-Validated args route valid;
        completed = trade-Completed _ _ _ accounts traded;
      }
