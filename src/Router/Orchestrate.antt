-- ===== src/Router/Orchestrate.antt =====
-- programs/arbitrage/src/instructions/orchestrate.rs: the generic handler of `ROUTE_DISC`.
pub mod Safety
pub mod Guards
use solana_atomic_arbitrage.Base.{ℕ, ◌+◌, Bool, true, not, List, length, ltb}
use solana_atomic_arbitrage.Router.Constants
use solana_atomic_arbitrage.Router.Error.{arb_err, arb_unknown_dex_pair, arb_bad_account_count}
use solana_atomic_arbitrage.Router.Instruction.{RouteArgs, parse_args}
use solana_atomic_arbitrage.Router.Types.{
  AccountInfo, Runtime, Result, ok, ◌>>=◌, ◌>>◌, fail_if, ok_or, account,
  missing_required_signature,
}
use solana_atomic_arbitrage.Router.Dex.Kind.{
  DexKind, fixed_len, same_kind, identify_dex, validate_dex_section,
}
use solana_atomic_arbitrage.Router.Legs.{execute_buy_leg, execute_sell_leg}
use solana_atomic_arbitrage.Router.Trade.{trade}

-- Where the two sections stand, and which DEX each is for.
pub record Route : Type 0 where
  pub buy_kind : DexKind
  pub sell_kind : DexKind
  pub sell_base : ℕ

abbrev pub buy_base : ℕ
buy_base = Constants.shared_fixed_len

-- Steps 2 and 3: the DEXes and the account count.
unfoldable pub locate : List AccountInfo → RouteArgs → Result Route
locate accounts args = do
  buy_kind? ← identify_dex accounts buy_base
  buy_kind ← ok_or buy_kind? (arb_err arb_unknown_dex_pair)
  let sell_base = buy_base + (fixed_len buy_kind + args.first_count)
  sell_kind? ← identify_dex accounts sell_base
  sell_kind ← ok_or sell_kind? (arb_err arb_unknown_dex_pair)
  fail_if (same_kind buy_kind sell_kind) (arb_err arb_unknown_dex_pair)
  fail_if (ltb (length accounts) (sell_base + fixed_len sell_kind + args.second_count))
      (arb_err arb_bad_account_count)
  ok (record { buy_kind = buy_kind; sell_kind = sell_kind; sell_base = sell_base })

-- Steps 4 and 5: the signer and the two sections.
unfoldable pub validate : Runtime → List AccountInfo → RouteArgs → Route → Result (Unit {0})
validate rt accounts args route = do
  user ← account accounts Constants.user_idx
  fail_if (not user.is_signer) missing_required_signature
  validate_dex_section rt accounts route.buy_kind buy_base args.first_count
  validate_dex_section rt accounts route.sell_kind route.sell_base args.second_count

-- Steps 6 to 10, with the legs of the route; the sell leg asks for 1 unit at least.
unfoldable pub run_route :
    Runtime → List AccountInfo → RouteArgs → Route → Result (List AccountInfo)
run_route rt accounts args route =
    trade
      (λ start.
        execute_buy_leg rt start route.buy_kind buy_base args.first_count args.amount_in
          args.min_intermediate args.sol_is_x)
      (λ received bought.
        execute_sell_leg rt bought route.sell_kind route.sell_base args.second_count received 1
          args.sol_is_x)
      args.min_profit accounts

unfoldable pub handle : Runtime → List AccountInfo → List ℕ → Result (List AccountInfo)
handle rt accounts bytes = do
  args ← parse_args bytes
  route ← locate accounts args
  validate rt accounts args route
  run_route rt accounts args route
