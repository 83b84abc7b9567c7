-- ===== src/Router/Legacy/Traded.antt =====
-- route_pump_to_dlmm.rs and route_dlmm_to_pump.rs: what a route that succeeds has seen, with the places
-- of the accounts written out as numbers.
pub mod DlmmFirst
use solana_atomic_arbitrage.Base.{
  ℕ, ◌+◌, ◌≤◌, ◌<◌, ◌≡◌, Bool, true, false, List, [], ◌∷◌, none, some, Option, length, ltb, ◌||◌,
  if◌then◌else◌, arith,
}
use solana_atomic_arbitrage.Router.Constants
use solana_atomic_arbitrage.Router.Cpi.Dlmm.{build_swap2}
use solana_atomic_arbitrage.Router.Cpi.PumpSwap.{build_buy, build_sell}
use solana_atomic_arbitrage.Router.Dex.Checks.{require_key-eq-ok}
use solana_atomic_arbitrage.Router.Dex.Dlmm.{require_oracle}
use solana_atomic_arbitrage.Router.Instruction.{RouteArgs, parse_args}
use solana_atomic_arbitrage.Router.Legacy.DlmmToPump
use solana_atomic_arbitrage.Router.Legacy.Guards.{
  pump_to_dlmm-BoughtOnPump, dlmm_to_pump-BoughtOnDlmm,
}
use solana_atomic_arbitrage.Router.Legacy.PumpToDlmm
use solana_atomic_arbitrage.Router.Legacy.Shared.{check_counts, ordered, invoke_pump, invoke_dlmm}
use solana_atomic_arbitrage.Router.Results.{>>=-eq-ok, fail_if-eq-ok, ok_or-eq-ok}
use solana_atomic_arbitrage.Router.Trade.{meme_balance}
use solana_atomic_arbitrage.Router.Trade.Profit.{IsProfitable}
use solana_atomic_arbitrage.Router.Types.{
  Pubkey, AccountInfo, Instruction, Runtime, Result, ok, account, as_ref,
}

-- The account at a place has the key.
abbrev pub HasKey : List AccountInfo → ℕ → Pubkey → Type 0
HasKey accounts i key = (a : AccountInfo) × (account accounts i ≡ ok a) × (a.key ≡ key)

-- The oracle at the second place is derived from the pair at the first.
abbrev pub HasOracle : Runtime → List AccountInfo → ℕ → ℕ → Type 0
HasOracle rt accounts i j =
    (pair : AccountInfo) × (account accounts i ≡ ok pair)
    × HasKey accounts j (
        rt.find_program_address (Constants.dlmm_oracle_seed ∷ as_ref pair.key ∷ [])
          Constants.dlmm_id)

-- The place of a section behind three shared accounts and a PumpSwap buy section.
abbrev pub behind_pump : RouteArgs → ℕ
behind_pump args = 3 + (23 + args.first_count)

-- A call of an instruction that was built, which turns the accounts to others.
abbrev pub Calls : Runtime → Result Instruction → List AccountInfo → List AccountInfo → Type 0
Calls rt built before after =
    (ix : Instruction) × (built ≡ ok ix) × (rt.invoke ix before ≡ some after)

-- The meme balance has grown by the amount, which is positive.
abbrev pub Grown : List AccountInfo → List AccountInfo → ℕ → Type 0
Grown before after received =
    (0 < received)
    × (held : ℕ) × (meme_balance before ≡ ok held)
    × (meme_balance after ≡ ok (held + received))

pub check_counts-eq-ok :
    (first second : ℕ)
    → check_counts first second ≡ ok tt
    → (first ≤ 5) × (1 ≤ second) × (second ≤ 6)
unfolding check_counts
check_counts-eq-ok first second h =
    let within = fail_if-eq-ok (ltb 5 first || (ltb second 1 || ltb 6 second)) _ h in
    (ground arith, ground arith, ground arith)

pub ordered-apply :
    (b : Bool) (x y u v : ℕ) (f : ℕ → ℕ → ℕ → ℕ → Result Instruction) {ix : Instruction}
    → f (ordered b x y).0 (ordered b x y).1 (ordered b u v).0 (ordered b u v).1 ≡ ok ix
    → f (if b then x else y) (if b then y else x) (if b then u else v) (if b then v else u) ≡ ok ix
ordered-apply true x y u v f h = h
ordered-apply false x y u v f h = h

pub require_oracle-HasOracle :
    (rt : Runtime) (accounts : List AccountInfo) (base n : ℕ)
    → require_oracle rt accounts base n ≡ ok tt
    → HasOracle rt accounts (base + 1) (base + 5)
unfolding require_oracle
require_oracle-HasOracle rt accounts base n h =
    let (pair, at, checked) = >>=-eq-ok (account accounts (base + 1)) _ h in
    (pair, at, require_key-eq-ok accounts (base + 5) _ _ checked)

module _ (rt : Runtime) (accounts : List AccountInfo) where
  pump_buys :
      (args : RouteArgs) {after : List AccountInfo}
      → PumpToDlmm.buy_leg rt args accounts ≡ ok after
      → Calls rt
          (build_buy accounts 3 args.first_count args.amount_in args.min_intermediate
            args.track_volume none)
          accounts
          after
  unfolding PumpToDlmm.buy_leg invoke_pump
  pump_buys args h =
      let (ix, built, called) = >>=-eq-ok (build_buy accounts 3 _ _ _ _ none) _ h in
      (ix, built, ok_or-eq-ok (rt.invoke ix accounts) _ called)

  dlmm_sells :
      (args : RouteArgs) (received : ℕ) {after : List AccountInfo}
      → PumpToDlmm.sell_leg rt args received accounts ≡ ok after
      → Calls rt
          (build_swap2 accounts
            (behind_pump args)
            received
            (if args.sol_is_x then 7 else 6)
            (if args.sol_is_x then 6 else 7)
            (if args.sol_is_x then 15 else 14)
            (if args.sol_is_x then 14 else 15)
            0
            2
            1
            args.second_count)
          accounts
          after
  unfolding PumpToDlmm.sell_leg invoke_dlmm
  dlmm_sells args received h =
      let (ix, built, called) = >>=-eq-ok (build_swap2 accounts _ received _ _ _ _ 0 2 1 _) _ h in
      (
        ix,
        ordered-apply args.sol_is_x 7 6 15 14
            (λ mx my px py.
              build_swap2 accounts (behind_pump args) received mx my px py 0 2 1 args.second_count)
            built,
        ok_or-eq-ok (rt.invoke ix accounts) _ called,
      )

module _ (rt : Runtime) (accounts : List AccountInfo) where
  -- The PumpSwap section stands at 3, the DLMM section behind it.
  pub record TradedPumpFirst (bytes : List ℕ) (final : List AccountInfo) : Type 0 where
    pub args : RouteArgs
    pub parsed : parse_args bytes ≡ ok args
    pub counts : (args.first_count ≤ 5) × (1 ≤ args.second_count) × (args.second_count ≤ 6)
    pub enough : behind_pump args + 9 + args.second_count ≤ length accounts
    pub signed : (user : AccountInfo) × (account accounts 0 ≡ ok user) × (user.is_signer ≡ true)
    pub global_config :
        HasKey accounts 5
          (rt.find_program_address (Constants.pump_global_config_seed ∷ []) Constants.pump_swap_id)
    pub sol_mint : HasKey accounts 7 Constants.native_sol_mint
    pub sol_token_program : HasKey accounts 15 Constants.token_id
    pub system_program : HasKey accounts 16 Constants.system_id
    pub ata_program : HasKey accounts 17 Constants.ata_id
    pub event_authority :
        HasKey accounts 18
          (rt.find_program_address (Constants.pump_event_auth_seed ∷ []) Constants.pump_swap_id)
    pub pump_program : HasKey accounts 19 Constants.pump_swap_id
    pub fee_config : HasKey accounts 24 (
        rt.find_program_address
          (Constants.pump_fee_config_seed ∷ as_ref Constants.pump_swap_id ∷ [])
          Constants.fee_program_id)
    pub fee_program : HasKey accounts 25 Constants.fee_program_id
    pub dlmm_program : HasKey accounts (behind_pump args + 0) Constants.dlmm_id
    pub oracle : HasOracle rt accounts (behind_pump args + 1) (behind_pump args + 5)
    pub memo : HasKey accounts (behind_pump args + 7) Constants.memo_id
    pub dlmm_authority : HasKey accounts (behind_pump args + 8) Constants.dlmm_event_auth
    pub bought : List AccountInfo
    pub received : ℕ
    pub buys :
        Calls rt
          (build_buy accounts 3 args.first_count args.amount_in args.min_intermediate
            args.track_volume none)
          accounts
          bought
    pub grown : Grown accounts bought received
    pub sells :
        Calls rt
          (build_swap2 bought
            (behind_pump args)
            received
            (if args.sol_is_x then 7 else 6)
            (if args.sol_is_x then 6 else 7)
            (if args.sol_is_x then 15 else 14)
            (if args.sol_is_x then 14 else 15)
            0
            2
            1
            args.second_count)
          bought
          final
    pub profit : IsProfitable args.min_profit accounts final

  -- A PumpSwap-to-DLMM route that succeeds has parsed data with both counts in bounds, enough
  -- accounts for its two sections, the user's signature at place 0, and at the places of both
  -- sections the mint of SOL, the programs and the derived addresses that the route needs. It has
  -- bought by the PumpSwap instruction for the amount and the least output in the data, has sold
  -- exactly what the meme balance had grown by in the DLMM pair, with mints and token programs in
  -- the order that the flag tells, and is profitable.
  pub pump_to_dlmm-TradedPumpFirst :
      (bytes : List ℕ) {final : List AccountInfo}
      → PumpToDlmm.handle rt accounts bytes ≡ ok final
      → TradedPumpFirst bytes final
  pump_to_dlmm-TradedPumpFirst bytes h =
      let b = pump_to_dlmm-BoughtOnPump rt accounts bytes h in
      let c = b.completed in
      record {
        args = b.args;
        parsed = b.parsed;
        counts = check_counts-eq-ok b.args.first_count b.args.second_count b.counted;
        enough = b.enough;
        signed = b.signed;
        global_config = b.derived.1.0;
        sol_mint = b.programs.1.1.0;
        sol_token_program = b.programs.1.1.1.0;
        system_program = b.programs.1.1.1.1.0;
        ata_program = b.programs.1.1.1.1.1.0;
        event_authority = b.derived.0;
        pump_program = b.programs.0;
        fee_config = b.derived.1.1.0;
        fee_program = b.programs.1.1.1.1.1.1.0;
        dlmm_program = b.programs.1.0;
        oracle = require_oracle-HasOracle rt accounts (behind_pump b.args) _ b.oracle;
        memo = b.derived.1.1.1.1.0;
        dlmm_authority = b.derived.1.1.1.0;
        bought = c.bought;
        received = c.received;
        buys = pump_buys rt accounts b.args c.buys;
        grown = (c.some_received, c.meme_before, c.read_before, c.read_bought);
        sells = dlmm_sells rt c.bought b.args c.received c.sells;
        profit = c.profit;
      }
