-- ===== src/Client/Simulator/PumpSwap/Routed.antt =====
-- The PumpSwap calls of the router (programs/arbitrage/src/cpi/pump_swap.rs) over the section that
-- the client sends (src/executor/atomic/onchain_router.rs), against the instructions that the client
-- builds itself (src/simulator/pumpswap/mod.rs).
use solana_atomic_arbitrage.Base.{
  ℕ, ◌≡◌, sym, refl, Bool, false, get_elem?, some, List, ◌++◌, map, length, drop, none,
}
use solana_atomic_arbitrage.Client.Constants as Sent
use solana_atomic_arbitrage.Client.Pool.{PumpSwapPoolMeta, pick_pumpswap_protocol_fee_recipient}
use solana_atomic_arbitrage.Client.Route.Sections.{
  RouteKeys, common_accounts, buy_fixed, buy_remaining, sell_fixed, sell_remaining,
  pumpswap_buy_remaining_count, pumpswap_sell_remaining_count,
}
use solana_atomic_arbitrage.Client.Route.Layout.{length-buy_remaining, length-sell_remaining}
use solana_atomic_arbitrage.Client.Simulator.Loading.{
  meta_of, consecutive, section-Split, fixed-read, rest-read, program-read,
}
use solana_atomic_arbitrage.Client.Simulator.PumpSwap.{
  PumpSwapKeys, shared_metas, buyback_metas, build_pumpswap_buy_ix, build_pumpswap_sell_ix,
}
use solana_atomic_arbitrage.Router.Cpi.Metas.{build_meta, acct_all}
use solana_atomic_arbitrage.Router.Cpi.PumpSwap.{
  buy_slots, sell_slots, override_base_ata, build_buy, build_sell,
}
use solana_atomic_arbitrage.Router.Types.{AccountInfo, Runtime, ok, ◌>>=◌, readonly}

-- The arguments of the client's builder for the keys of a route.
abbrev pub swap_keys : RouteKeys → PumpSwapPoolMeta → PumpSwapKeys
swap_keys k pool_meta = record {
  user = k.user;
  pool = k.pool;
  base_mint = k.meme_mint;
  quote_mint = k.sol_mint;
  user_base_ata = k.user_meme_ata;
  user_quote_ata = k.user_sol_ata;
  pool_base_ata = pool_meta.pool_base_token_account;
  pool_quote_ata = pool_meta.pool_quote_token_account;
  base_token_program = k.base_token_program;
  quote_token_program = k.quote_token_program;
  coin_creator = pool_meta.coin_creator;
  is_cashback_coin = pool_meta.is_cashback_coin;
  buyback_recipient = Sent.pumpswap_buyback_fee_recipient;
  protocol_fee_recipient = pick_pumpswap_protocol_fee_recipient pool_meta.is_mayhem_mode;
}

module _ (rt : Runtime) (k : RouteKeys) (pool_meta : PumpSwapPoolMeta) where
  buy_slots_lem :
      (accounts : List AccountInfo) (base : ℕ)
      → build_meta accounts base buy_slots
        ≡ acct_all accounts (consecutive base 0 (buy_fixed rt k pool_meta))
  unfolding build_meta buy_fixed common_accounts
  buy_slots_lem accounts base = refl

  sell_slots_lem :
      (accounts : List AccountInfo) (base : ℕ)
      → build_meta accounts base sell_slots
        ≡ acct_all accounts (consecutive base 0 (sell_fixed rt k pool_meta))
  unfolding build_meta sell_fixed common_accounts
  sell_slots_lem accounts base = refl

  buy_fixed_lem :
      (length (buy_fixed rt k pool_meta) ≡ 23)
      × (get_elem? (buy_fixed rt k pool_meta) 16 ≡ some (readonly Sent.pumpfun_amm_program false))
  unfolding buy_fixed common_accounts
  buy_fixed_lem = (refl, refl)

  sell_fixed_lem :
      (length (sell_fixed rt k pool_meta) ≡ 21)
      × (get_elem? (sell_fixed rt k pool_meta) 16 ≡ some (readonly Sent.pumpfun_amm_program false))
  unfolding sell_fixed common_accounts
  sell_fixed_lem = (refl, refl)

  buy_metas_lem :
      (amount min_out : ℕ) (track_volume : Bool)
      → (build_pumpswap_buy_ix rt (swap_keys k pool_meta) amount min_out track_volume).accounts
        ≡ buy_fixed rt k pool_meta ++ buy_remaining rt k pool_meta
  unfolding build_pumpswap_buy_ix buy_fixed buy_remaining common_accounts shared_metas buyback_metas
  buy_metas_lem amount min_out track_volume = refl

  sell_metas_lem :
      (amount min_out : ℕ)
      → (build_pumpswap_sell_ix rt (swap_keys k pool_meta) amount min_out).accounts
        ≡ sell_fixed rt k pool_meta ++ sell_remaining rt k pool_meta
  unfolding build_pumpswap_sell_ix sell_fixed sell_remaining common_accounts shared_metas
      buyback_metas
  sell_metas_lem amount min_out = refl

module _ (rt : Runtime) (k : RouteKeys) (pool_meta : PumpSwapPoolMeta)
    (accounts loaded after : List AccountInfo) (base amount min_out : ℕ)
    (there : drop base accounts ≡ loaded ++ after) where
  -- On the accounts loaded for a buy section that the client sends, wherever the section stands in
  -- the list, the router's PumpSwap buy instruction is exactly the one that the client's own
  -- builder makes.
  pub build_buy-eq-build_pumpswap_buy_ix :
      (track_volume : Bool)
      → map meta_of loaded ≡ buy_fixed rt k pool_meta ++ buy_remaining rt k pool_meta
      → build_buy accounts base
          (pumpswap_buy_remaining_count pool_meta)
          amount
          min_out
          track_volume
          none
        ≡ ok (build_pumpswap_buy_ix rt (swap_keys k pool_meta) amount min_out track_volume)
  unfolding build_buy override_base_ata ◌>>=◌
  build_buy-eq-build_pumpswap_buy_ix track_volume sent =
      let s =
        section-Split accounts loaded after base (buy_fixed rt k pool_meta)
          (buy_remaining rt k pool_meta) there sent in
      let (sized, at_program) = buy_fixed_lem rt k pool_meta in
      let (program, at, is_program) =
        program-read accounts base _ _ s 16 Sent.pumpfun_amm_program at_program in
      rw (buy_slots_lem rt k pool_meta accounts base, fixed-read accounts base _ _ s)
        (rw (rest-read accounts base _ _ s 23 _ sized (length-buy_remaining rt k pool_meta), at)
          (unfold build_pumpswap_buy_ix in
            λ i. ok (record {
              program_id = is_program i;
              accounts = sym (buy_metas_lem rt k pool_meta amount min_out track_volume) i;
              bytes =
                  (build_pumpswap_buy_ix rt (swap_keys k pool_meta) amount min_out
                    track_volume).bytes;
            })))

  -- On the accounts loaded for a sell section that the client sends, wherever the section stands
  -- in the list, the router's PumpSwap sell instruction is exactly the one that the client's own
  -- builder makes.
  pub build_sell-eq-build_pumpswap_sell_ix :
      map meta_of loaded ≡ sell_fixed rt k pool_meta ++ sell_remaining rt k pool_meta
      → build_sell accounts base (pumpswap_sell_remaining_count pool_meta) amount min_out none
        ≡ ok (build_pumpswap_sell_ix rt (swap_keys k pool_meta) amount min_out)
  unfolding build_sell override_base_ata ◌>>=◌
  build_sell-eq-build_pumpswap_sell_ix sent =
      let s =
        section-Split accounts loaded after base (sell_fixed rt k pool_meta)
          (sell_remaining rt k pool_meta) there sent in
      let (sized, at_program) = sell_fixed_lem rt k pool_meta in
      let (program, at, is_program) =
        program-read accounts base _ _ s 16 Sent.pumpfun_amm_program at_program in
      rw (sell_slots_lem rt k pool_meta accounts base, fixed-read accounts base _ _ s)
        (rw (rest-read accounts base _ _ s 21 _ sized (length-sell_remaining rt k pool_meta), at)
          (unfold build_pumpswap_sell_ix in
            λ i. ok (record {
              program_id = is_program i;
              accounts = sym (sell_metas_lem rt k pool_meta amount min_out) i;
              bytes = (build_pumpswap_sell_ix rt (swap_keys k pool_meta) amount min_out).bytes;
            })))
