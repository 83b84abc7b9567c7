-- ===== src/Router/Legacy/Traded/DlmmFirst.antt =====
-- route_dlmm_to_pump.rs: what a route that succeeds has seen, with the places of the accounts written
-- out as numbers.
use solana_atomic_arbitrage.Base.{
  ℕ, ◌+◌, ◌≤◌, ◌≡◌, true, List, [], ◌∷◌, none, length, if◌then◌else◌,
}
use solana_atomic_arbitrage.Router.Constants
use solana_atomic_arbitrage.Router.Cpi.Dlmm.{build_swap2}
use solana_atomic_arbitrage.Router.Cpi.PumpSwap.{build_sell}
use solana_atomic_arbitrage.Router.Instruction.{RouteArgs, parse_args}
use solana_atomic_arbitrage.Router.Legacy.DlmmToPump
use solana_atomic_arbitrage.Router.Legacy.Guards.{dlmm_to_pump-BoughtOnDlmm}
use solana_atomic_arbitrage.Router.Legacy.Shared.{invoke_pump, invoke_dlmm}
use solana_atomic_arbitrage.Router.Legacy.Traded.{
  HasKey, HasOracle, Calls, Grown, ordered-apply, check_counts-eq-ok, require_oracle-HasOracle,
}
use solana_atomic_arbitrage.Router.Results.{>>=-eq-ok, ok_or-eq-ok}
use solana_atomic_arbitrage.Router.Trade.Profit.{IsProfitable}
use solana_atomic_arbitrage.Router.Types.{AccountInfo, Runtime, ok, account, as_ref}

-- The place of a section behind three shared accounts and a DLMM section.
abbrev pub behind_dlmm : RouteArgs → ℕ
behind_dlmm args = 3 + 9 + args.second_count

module _ (rt : Runtime) (accounts : List AccountInfo) where
  dlmm_buys :
      (args : RouteArgs) {after : List AccountInfo}
      → DlmmToPump.buy_leg rt args accounts ≡ ok after
      → Calls rt
          (build_swap2 accounts 3 args.amount_in
            (if args.sol_is_x then behind_dlmm args + 4 else behind_dlmm args + 3)
            (if args.sol_is_x then behind_dlmm args + 3 else behind_dlmm args + 4)
            (if args.sol_is_x then behind_dlmm args + 12 else behind_dlmm args + 11)
            (if args.sol_is_x then behind_dlmm args + 11 else behind_dlmm args + 12)
            0
            1
            2
            args.second_count)
          accounts
          after
  unfolding DlmmToPump.buy_leg invoke_dlmm
  dlmm_buys args h =
      let (ix, built, called) = >>=-eq-ok (build_swap2 accounts 3 _ _ _ _ _ 0 1 2 _) _ h in
      let behind = behind_dlmm args in
      (
        ix,
        ordered-apply args.sol_is_x (behind + 4) (behind + 3) (behind + 12) (behind + 11)
            (λ mx my px py.
              build_swap2 accounts 3 args.amount_in mx my px py 0 1 2 args.second_count)
            built,
        ok_or-eq-ok (rt.invoke ix accounts) _ called,
      )

  pump_sells :
      (args : RouteArgs) (received : ℕ) {after : List AccountInfo}
      → DlmmToPump.sell_leg rt args received accounts ≡ ok after
      → Calls rt
          (build_sell accounts
            (behind_dlmm args)
            args.first_count
            received
            args.min_intermediate
            none)
          accounts
          after
  unfolding DlmmToPump.sell_leg invoke_pump
  pump_sells args received h =
      let (ix, built, called) = >>=-eq-ok (build_sell accounts _ _ received _ none) _ h in
      (ix, built, ok_or-eq-ok (rt.invoke ix accounts) _ called)

module _ (rt : Runtime) (accounts : List AccountInfo) where
  -- The DLMM section stands at 3, the PumpSwap section behind it.
  pub record TradedDlmmFirst (bytes : List ℕ) (final : List AccountInfo) : Type 0 where
    pub args : RouteArgs
    pub parsed : parse_args bytes ≡ ok args
    pub counts : (args.first_count ≤ 5) × (1 ≤ args.second_count) × (args.second_count ≤ 6)
    pub enough : behind_dlmm args + 21 + args.first_count ≤ length accounts
    pub signed : (user : AccountInfo) × (account accounts 0 ≡ ok user) × (user.is_signer ≡ true)
    pub dlmm_program : HasKey accounts 3 Constants.dlmm_id
    pub oracle : HasOracle rt accounts 4 8
    pub memo : HasKey accounts 10 Constants.memo_id
    pub dlmm_authority : HasKey accounts 11 Constants.dlmm_event_auth
    pub global_config :
        HasKey accounts
          (behind_dlmm args + 2)
          (rt.find_program_address (Constants.pump_global_config_seed ∷ []) Constants.pump_swap_id)
    pub sol_mint : HasKey accounts (behind_dlmm args + 4) Constants.native_sol_mint
    pub sol_token_program : HasKey accounts (behind_dlmm args + 12) Constants.token_id
    pub system_program : HasKey accounts (behind_dlmm args + 13) Constants.system_id
    pub ata_program : HasKey accounts (behind_dlmm args + 14) Constants.ata_id
    pub event_authority :
        HasKey accounts
          (behind_dlmm args + 15)
          (rt.find_program_address (Constants.pump_event_auth_seed ∷ []) Constants.pump_swap_id)
    pub pump_program : HasKey accounts (behind_dlmm args + 16) Constants.pump_swap_id
    pub fee_config : HasKey accounts (behind_dlmm args + 19) (
        rt.find_program_address
          (Constants.pump_fee_config_seed ∷ as_ref Constants.pump_swap_id ∷ [])
          Constants.fee_program_id)
    pub fee_program : HasKey accounts (behind_dlmm args + 20) Constants.fee_program_id
    pub bought : List AccountInfo
    pub received : ℕ
    pub buys :
        Calls rt
          (build_swap2 accounts 3 args.amount_in
            (if args.sol_is_x then behind_dlmm args + 4 else behind_dlmm args + 3)
            (if args.sol_is_x then behind_dlmm args + 3 else behind_dlmm args + 4)
            (if args.sol_is_x then behind_dlmm args + 12 else behind_dlmm args + 11)
            (if args.sol_is_x then behind_dlmm args + 11 else behind_dlmm args + 12)
            0
            1
            2
            args.second_count)
          accounts
          bought
    pub grown : Grown accounts bought received
    pub sells :
        Calls rt
          (build_sell bought
            (behind_dlmm args)
            args.first_count
            received
            args.min_intermediate
            none)
          bought
          final
    pub profit : IsProfitable args.min_profit accounts final

  -- A DLMM-to-PumpSwap route that succeeds has parsed data with both counts in bounds, enough
  -- accounts for its two sections, the user's signature at place 0, and at the places of both
  -- sections the mint of SOL, the programs and the derived addresses that the route needs. It has
  -- bought in the DLMM pair for the amount in the data, with mints and token programs in the order
  -- that the flag tells, has sold exactly what the meme balance had grown by by the PumpSwap
  -- instruction with the least output in the data, and is profitable.
  pub dlmm_to_pump-TradedDlmmFirst :
      (bytes : List ℕ) {final : List AccountInfo}
      → DlmmToPump.handle rt accounts bytes ≡ ok final
      → TradedDlmmFirst bytes final
  dlmm_to_pump-TradedDlmmFirst bytes h =
      let b = dlmm_to_pump-BoughtOnDlmm rt accounts bytes h in
      let c = b.completed in
      record {
        args = b.args;
        parsed = b.parsed;
        counts = check_counts-eq-ok b.args.first_count b.args.second_count b.counted;
        enough = b.enough;
        signed = b.signed;
        dlmm_program = b.programs.0;
        oracle = require_oracle-HasOracle rt accounts 3 _ b.oracle;
        memo = b.dlmm.1.0;
        dlmm_authority = b.dlmm.0;
        global_config = b.derived.1.0;
        sol_mint = b.programs.1.1.0;
        sol_token_program = b.programs.1.1.1.0;
        system_program = b.programs.1.1.1.1.0;
        ata_program = b.programs.1.1.1.1.1.0;
        event_authority = b.derived.0;
        pump_program = b.programs.1.0;
        fee_config = b.derived.1.1.0;
        fee_program = b.programs.1.1.1.1.1.1.0;
        bought = c.bought;
        received = c.received;
        buys = dlmm_buys rt accounts b.args c.buys;
        grown = (c.some_received, c.meme_before, c.read_before, c.read_bought);
        sells = pump_sells rt c.bought b.args c.received c.sells;
        profit = c.profit;
      }
