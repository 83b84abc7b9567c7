-- ===== src/Client/Route/Accepted/DlmmToPump.antt =====
-- The route that buys on DLMM and sells on PumpSwap, against the checks of
-- instructions/route_dlmm_to_pump.rs.
use solana_atomic_arbitrage.Base.{
  ℕ, ◌+◌, ◌^◌, ◌≤◌, ◌<◌, ◌≡◌, ◌∙◌, sym, ap, subst, refl, Bool, false, List, [], ◌∷◌, ◌++◌, length,
  length-take_le, length-take_pos, get_elem?, some, length-append, length-map,
  get_elem?-append_past, All, arith,
}
use solana_atomic_arbitrage.Client.Pool.{PumpSwapPoolMeta}
use solana_atomic_arbitrage.Client.Route.Accepted.{
  Loaded, Loaded-length, Loaded-account, require_key-Loaded, require_keys-Loaded, MetaHolds,
}
use solana_atomic_arbitrage.Client.Route.Layout.{
  assemble_dlmm_to_pump, shared_accounts, used_bin_arrays, length-sell_remaining,
}
use solana_atomic_arbitrage.Client.Route.Sections.{
  RouteKeys, DlmmKeys, push_pumpswap_sell_accounts, push_dlmm_accounts, sell_fixed, common_accounts,
  dlmm_fixed, pumpswap_sell_remaining_count, sell_remaining,
}
use solana_atomic_arbitrage.Router.Constants
use solana_atomic_arbitrage.Client.Constants as Sent
use solana_atomic_arbitrage.Router.Instruction.{RouteArgs}
use solana_atomic_arbitrage.Router.Trade.{trade}
use solana_atomic_arbitrage.Router.Entry.{process_instruction, dispatch, same_bytes}
use solana_atomic_arbitrage.Client.Route.Encode.{build_ix_data}
use solana_atomic_arbitrage.Client.Route.Roundtrip.{parse_args-build_ix_data, length-build_ix_data}
use solana_atomic_arbitrage.Router.Legacy.DlmmToPump.{
  handle, buy_leg, sell_leg, check_accounts, program_checks, dlmm_checks, pump_pda_checks,
  dlmm_base, pump_sell_base, total_expected,
}
use solana_atomic_arbitrage.Router.Dex.Dlmm.{require_oracle}
use solana_atomic_arbitrage.Router.Types.{
  Pubkey, AccountInfo, AccountMeta, writable, ok, ◌>>=◌, fail_if, Runtime, as_ref,
}
use solana_atomic_arbitrage.Client.Route.Accepted.Address.{
  WellAddressed, check_counts-ok, not_short,
}
use solana_atomic_arbitrage.Router.Slices.{slice_at}

module _ (rt : Runtime) (k : RouteKeys) (pool_meta : PumpSwapPoolMeta) (d : DlmmKeys)
    (bins : List Pubkey) where
  abbrev prefix : List AccountMeta
  prefix = push_dlmm_accounts d (used_bin_arrays bins) (shared_accounts k)

  abbrev metas : List AccountMeta
  metas = push_pumpswap_sell_accounts rt k pool_meta prefix

  length-prefix : length prefix ≡ 12 + length (used_bin_arrays bins)
  unfolding push_dlmm_accounts dlmm_fixed
  length-prefix = omega (arith, length-map (λ key. writable key false) (used_bin_arrays bins))

  at_sell :
      (r : ℕ)
      → get_elem? metas (12 + length (used_bin_arrays bins) + r)
        ≡ get_elem? (sell_fixed rt k pool_meta ++ sell_remaining rt k pool_meta) r
  unfolding push_pumpswap_sell_accounts
  at_sell r =
      subst
        (λ n.
          get_elem? metas (n + r)
          ≡ get_elem? (sell_fixed rt k pool_meta ++ sell_remaining rt k pool_meta) r)
        length-prefix (get_elem?-append_past prefix _ r)

  length-metas :
      length metas ≡ 33 + length (used_bin_arrays bins) + pumpswap_sell_remaining_count pool_meta
  unfolding push_pumpswap_sell_accounts sell_fixed common_accounts
  length-metas = omega (
    arith,
    length-append prefix (sell_fixed rt k pool_meta ++ sell_remaining rt k pool_meta),
    length-prefix,
    length-sell_remaining rt k pool_meta,
  )

module _ {rt : Runtime} {k : RouteKeys} {d : DlmmKeys} {accounts : List AccountInfo}
    (pool_meta : PumpSwapPoolMeta) (bins : List Pubkey) (args : RouteArgs)
    (loaded : Loaded (metas rt k pool_meta d bins) accounts)
    (counted : args.second_count ≡ length (used_bin_arrays bins)) (w : WellAddressed rt k d) where
  -- The base of the sell section is where the client has put it.
  at_base :
      (r : ℕ) {m : AccountMeta}
      → get_elem? (sell_fixed rt k pool_meta ++ sell_remaining rt k pool_meta) r ≡ some m
      → get_elem? (metas rt k pool_meta d bins) (pump_sell_base args + r) ≡ some m
  at_base r {m = m} h =
      subst (λ n. get_elem? (metas rt k pool_meta d bins) (n + r) ≡ some m) (omega arith)
        (at_sell rt k pool_meta d bins r ∙ h)

  programs_hold : All (MetaHolds (metas rt k pool_meta d bins)) (program_checks rt accounts args)
  unfolding push_pumpswap_sell_accounts push_dlmm_accounts sell_fixed common_accounts dlmm_fixed
  programs_hold = (
    (_, refl, w.dlmm_program_eq),
    (
      (_, at_base 16 refl, refl),
      (
        (_, at_base 4 refl, w.sol_mint_eq),
        (
          (_, at_base 12 refl, w.quote_program_eq),
          (
            (_, at_base 13 refl, refl),
            ((_, at_base 14 refl, refl), ((_, at_base 20 refl, refl), tt)),
          ),
        ),
      ),
    ),
  )

  dlmm_holds : All (MetaHolds (metas rt k pool_meta d bins)) (dlmm_checks rt accounts args)
  unfolding push_pumpswap_sell_accounts push_dlmm_accounts dlmm_fixed
  dlmm_holds = ((_, refl, w.event_auth_eq), ((_, refl, w.memo_eq), tt))

  pdas_hold : All (MetaHolds (metas rt k pool_meta d bins)) (pump_pda_checks rt accounts args)
  unfolding sell_fixed common_accounts
  pdas_hold = (
    (_, at_base 15 refl, sym w.pump_event_eq),
    ((_, at_base 2 refl, sym w.pump_config_eq), ((_, at_base 19 refl, refl), tt)),
  )

  oracle_holds : require_oracle rt accounts dlmm_base args.second_count ≡ ok tt
  unfolding require_oracle ◌>>=◌ push_pumpswap_sell_accounts push_dlmm_accounts dlmm_fixed
  oracle_holds =
      let (pair, found, key_eq, _) = Loaded-account loaded 4 refl in
      rw (found) (
        require_key-Loaded loaded 8 _ _ refl (
          w.oracle_eq
          ∙ ap
              (λ key.
                rt.find_program_address (Constants.dlmm_oracle_seed ∷ as_ref key ∷ [])
                  Constants.dlmm_id)
              (sym key_eq)))

  -- The checks on programs, mints, derived addresses, oracle and signer.
  check_accounts-ok : check_accounts rt accounts args ≡ ok tt
  unfolding check_accounts ◌>>=◌ fail_if push_dlmm_accounts push_pumpswap_sell_accounts
  check_accounts-ok =
      let (user, found, _, signed) = Loaded-account loaded 0 refl in
      rw
        (
          require_keys-Loaded loaded (program_checks rt accounts args) programs_hold,
          found,
          signed,
          require_keys-Loaded loaded (dlmm_checks rt accounts args) dlmm_holds,
          oracle_holds,
        )
        (require_keys-Loaded loaded (pump_pda_checks rt accounts args) pdas_hold)

-- The arguments that the router reads from the client's data.
abbrev pub sent_args : PumpSwapPoolMeta → List Pubkey → ℕ → ℕ → ℕ → Bool → RouteArgs
sent_args pool_meta bins investment min_meme min_profit sol_is_x = record {
  amount_in = investment;
  min_profit = min_profit;
  min_intermediate = min_meme;
  track_volume = false;
  sol_is_x = sol_is_x;
  first_count = pumpswap_sell_remaining_count pool_meta;
  second_count = length (used_bin_arrays bins);
}

remaining_count-le : (pool_meta : PumpSwapPoolMeta) → pumpswap_sell_remaining_count pool_meta ≤ 5
unfolding pumpswap_sell_remaining_count
remaining_count-le pool_meta = ground arith

-- The first two steps of the entry point, on any data that begin with the route's discriminator.
dispatched :
    (rt : Runtime) (accounts : List AccountInfo) (a p m : ℕ) (track sol_is_x : Bool)
    (first second : ℕ)
    → process_instruction rt accounts
        (build_ix_data Sent.route_dlmm_to_pump_disc a p m track sol_is_x first second)
      ≡ handle rt accounts
          (build_ix_data Sent.route_dlmm_to_pump_disc a p m track sol_is_x first second)
unfolding process_instruction dispatch same_bytes slice_at build_ix_data ◌>>=◌ fail_if
dispatched rt accounts a p m track sol_is_x first second =
    rw (length-build_ix_data Sent.route_dlmm_to_pump_disc a p m track sol_is_x first second refl)
      refl

-- Through the router's entry point a route with well-formed addresses goes to the trade: its data parse to the
-- values sent, and no check fails.
pub process_instruction-assemble_dlmm_to_pump :
    (rt : Runtime) (k : RouteKeys) (pool_meta : PumpSwapPoolMeta) (d : DlmmKeys)
    (bins : List Pubkey) (program investment min_meme min_profit : ℕ) (sol_is_x : Bool)
    (accounts : List AccountInfo)
    → Loaded
        (assemble_dlmm_to_pump rt k pool_meta d bins program investment min_meme min_profit
          sol_is_x).accounts
        accounts
    → WellAddressed rt k d
    → investment < 2 ^ 64
    → min_profit < 2 ^ 64
    → min_meme < 2 ^ 64
    → 0 < investment
    → 0 < min_profit
    → 0 < length bins
    → process_instruction rt accounts
        (assemble_dlmm_to_pump rt k pool_meta d bins program investment min_meme min_profit
          sol_is_x).bytes
      ≡ trade
          (buy_leg rt (sent_args pool_meta bins investment min_meme min_profit sol_is_x))
          (sell_leg rt (sent_args pool_meta bins investment min_meme min_profit sol_is_x))
          min_profit
          accounts
unfolding assemble_dlmm_to_pump handle ◌>>=◌ fail_if
process_instruction-assemble_dlmm_to_pump rt k pool_meta d bins program investment min_meme
      min_profit sol_is_x accounts loaded w hi hp hm pi pp pb =
    let args = sent_args pool_meta bins investment min_meme min_profit sol_is_x in
    let parsed =
      parse_args-build_ix_data Sent.route_dlmm_to_pump_disc investment min_profit min_meme false
        sol_is_x (pumpswap_sell_remaining_count pool_meta) (length (used_bin_arrays bins)) refl hi
        hp hm pi pp in
    let counted =
      check_counts-ok (pumpswap_sell_remaining_count pool_meta) (length (used_bin_arrays bins))
        (omega (arith, remaining_count-le pool_meta)) (length-take_pos 4 bins pb)
        (length-take_le 5 bins) in
    let sized =
      not_short (length accounts) (total_expected args)
        (omega (arith, Loaded-length loaded, length-metas rt k pool_meta d bins)) in
    dispatched rt accounts investment min_profit min_meme false sol_is_x
      (pumpswap_sell_remaining_count pool_meta) (length (used_bin_arrays bins))
    ∙ rw (parsed, counted, sized, check_accounts-ok pool_meta bins args loaded refl w) refl
