-- ===== src/Router/Legs/Safety.antt =====
-- orchestrate.rs, `execute_buy_leg` and `execute_sell_leg`, and the CPI builders: indices into the
-- account list.
use solana_atomic_arbitrage.Base.{
  ℕ, ◌+◌, ◌≤◌, ◌<◌, ◌≡◌, Bool, true, false, List, none, length, arith,
}
use solana_atomic_arbitrage.Router.Types.{
  AccountInfo, Instruction, ProgramError, Runtime, KeepsLength, ok, ok_or,
}
use solana_atomic_arbitrage.Router.Results.{
  Safe, safe_ok, >>=-Safe, ok_or-Safe, account-Safe, >>=-eq-ok, ok_or-eq-ok,
}
use solana_atomic_arbitrage.Router.Dex.Kind.{DexKind, pump_swap, dlmm, cpmm, whirlpool, fixed_len}
use solana_atomic_arbitrage.Router.Cpi.Metas.{acct_all-Safe, build_meta-Safe, remaining_metas-Safe}
use solana_atomic_arbitrage.Router.Cpi.PumpSwap
use solana_atomic_arbitrage.Router.Cpi.Dlmm
use solana_atomic_arbitrage.Router.Cpi.Cpmm
use solana_atomic_arbitrage.Router.Cpi.Whirlpool
use solana_atomic_arbitrage.Router.Legs.{
  generic_swap2, buy_instruction, sell_instruction, execute_buy_leg, execute_sell_leg,
}

module _ (accounts : List AccountInfo) where
  pub build_buy-Safe :
      (base n amount min_out : ℕ) (track : Bool)
      → base + 23 + n ≤ length accounts
      → Safe (PumpSwap.build_buy accounts base n amount min_out track none)
  unfolding PumpSwap.build_buy
  build_buy-Safe base n amount min_out track h =
      >>=-Safe (build_meta-Safe accounts base _ (omega arith)) λ fixed _.
        >>=-Safe (PumpSwap.override_base_ata-Safe accounts fixed) λ fixed' _.
          >>=-Safe (remaining_metas-Safe accounts (base + 23) n (omega arith)) λ rest _.
            >>=-Safe (account-Safe accounts (base + 16) (omega arith)) (λ program _. safe_ok _)

  pub build_sell-Safe :
      (base n amount min_out : ℕ)
      → base + 21 + n ≤ length accounts
      → Safe (PumpSwap.build_sell accounts base n amount min_out none)
  unfolding PumpSwap.build_sell
  build_sell-Safe base n amount min_out h =
      >>=-Safe (build_meta-Safe accounts base _ (omega arith)) λ fixed _.
        >>=-Safe (PumpSwap.override_base_ata-Safe accounts fixed) λ fixed' _.
          >>=-Safe (remaining_metas-Safe accounts (base + 21) n (omega arith)) λ rest _.
            >>=-Safe (account-Safe accounts (base + 16) (omega arith)) (λ program _. safe_ok _)

  pub build_swap2-Safe :
      (base amount xm ym xp yp token_in token_out n : ℕ)
      → base + 9 + n ≤ length accounts
      → 2 < length accounts
      → xm < length accounts
      → ym < length accounts
      → xp < length accounts
      → yp < length accounts
      → token_in ≤ 2
      → token_out ≤ 2
      → Safe (Dlmm.build_swap2 accounts base amount xm ym xp yp 0 token_in token_out n)
  unfolding Dlmm.build_swap2
  build_swap2-Safe base amount xm ym xp yp token_in token_out n h u a b c d e f =
      >>=-Safe (acct_all-Safe accounts _ (omega arith)) λ fixed _.
        >>=-Safe
          (acct_all-Safe accounts _
            (Dlmm.bin_array_slots-InRange accounts (base + 9) n (omega arith)))
          λ bins _.
            >>=-Safe (account-Safe accounts (base + 0) (omega arith)) (λ program _. safe_ok _)

  cpmm-Safe :
      (base amount min_out in_ata out_ata : ℕ)
      → base + 13 ≤ length accounts
      → 2 < length accounts
      → in_ata ≤ 2
      → out_ata ≤ 2
      → Safe (
          Cpmm.build_swap accounts base amount min_out 0
            (base + 8)
            (base + 9)
            in_ata
            out_ata
            (base + 10)
            (base + 11)
            (base + 12))
  unfolding Cpmm.build_swap
  cpmm-Safe base amount min_out in_ata out_ata h u e f =
      >>=-Safe (acct_all-Safe accounts _ (omega arith))
        λ metas _. >>=-Safe (account-Safe accounts base (omega arith)) (λ program _. safe_ok _)

  whirlpool-Safe :
      (base n amount min_out : ℕ) (a_to_b : Bool) (in_ata out_ata : ℕ)
      → base + 12 ≤ length accounts
      → 2 < length accounts
      → in_ata ≤ 2
      → out_ata ≤ 2
      → Safe (
          Whirlpool.build_swap accounts base n amount min_out a_to_b
            (base + 11)
            (base + 11)
            in_ata
            out_ata)
  unfolding Whirlpool.build_swap
  whirlpool-Safe base n amount min_out a_to_b in_ata out_ata h u e f =
      >>=-Safe (account-Safe accounts _ (omega arith)) λ a₁ _.
        >>=-Safe (account-Safe accounts _ (omega arith)) λ a₂ _.
          >>=-Safe (account-Safe accounts _ (omega arith)) λ a₃ _.
            >>=-Safe (account-Safe accounts _ (omega arith)) λ a₄ _.
              >>=-Safe (account-Safe accounts _ (omega arith)) λ a₅ _.
                >>=-Safe (account-Safe accounts _ (omega arith)) λ a₆ _.
                  >>=-Safe (account-Safe accounts _ (omega arith)) λ a₇ _.
                    >>=-Safe (Whirlpool.tick_metas-Safe accounts _ _ (omega arith)) λ ticks _.
                      >>=-Safe (account-Safe accounts _ (omega arith)) λ a₈ _.
                        >>=-Safe (account-Safe accounts base (omega arith)) (λ a₉ _. safe_ok _)

  module _ (base n amount min_out : ℕ) where
    buy_instruction-Safe :
        (kind : DexKind)
        → 3 ≤ length accounts
        → base + fixed_len kind + n ≤ length accounts
        → Safe (buy_instruction accounts kind base n amount min_out)
    unfolding buy_instruction fixed_len generic_swap2
    buy_instruction-Safe pump_swap u h = build_buy-Safe base n amount min_out false (omega arith)
    buy_instruction-Safe dlmm u h =
        build_swap2-Safe base amount _ _ _ _ 1 2 n (omega arith) u (omega arith) (omega arith)
          (omega arith) (omega arith) (omega arith) (omega arith)
    buy_instruction-Safe cpmm u h =
        cpmm-Safe base amount min_out 1 2 (omega arith) u (omega arith) (omega arith)
    buy_instruction-Safe whirlpool u h =
        whirlpool-Safe base n amount min_out true 1 2 (omega arith) u (omega arith) (omega arith)

    sell_instruction-Safe :
        (kind : DexKind)
        → 3 ≤ length accounts
        → base + fixed_len kind + n ≤ length accounts
        → Safe (sell_instruction accounts kind base n amount min_out)
    unfolding sell_instruction fixed_len generic_swap2
    sell_instruction-Safe pump_swap u h = build_sell-Safe base n amount min_out (omega arith)
    sell_instruction-Safe dlmm u h =
        build_swap2-Safe base amount _ _ _ _ 2 1 n (omega arith) u (omega arith) (omega arith)
          (omega arith) (omega arith) (omega arith) (omega arith)
    sell_instruction-Safe cpmm u h =
        cpmm-Safe base amount min_out 2 1 (omega arith) u (omega arith) (omega arith)
    sell_instruction-Safe whirlpool u h =
        whirlpool-Safe base n amount min_out false 2 1 (omega arith) u (omega arith) (omega arith)

module _ (rt : Runtime) (accounts : List AccountInfo) (base n amount min_out : ℕ)
    (flag : Bool) where
  pub execute_buy_leg-Safe :
      (kind : DexKind)
      → 3 ≤ length accounts
      → base + fixed_len kind + n ≤ length accounts
      → Safe (execute_buy_leg rt accounts kind base n amount min_out flag)
  unfolding execute_buy_leg
  execute_buy_leg-Safe kind u h =
      >>=-Safe (buy_instruction-Safe accounts base n amount min_out kind u h)
        (λ ix _. ok_or-Safe _ _)

  pub execute_sell_leg-Safe :
      (kind : DexKind)
      → 3 ≤ length accounts
      → base + fixed_len kind + n ≤ length accounts
      → Safe (execute_sell_leg rt accounts kind base n amount min_out flag)
  unfolding execute_sell_leg
  execute_sell_leg-Safe kind u h =
      >>=-Safe (sell_instruction-Safe accounts base n amount min_out kind u h)
        (λ ix _. ok_or-Safe _ _)

  invoked :
      (ix : Instruction) (e : ProgramError) {after : List AccountInfo}
      → KeepsLength rt
      → ok_or (rt.invoke ix accounts) e ≡ ok after
      → length after ≡ length accounts
  invoked ix e keeps h = keeps ix accounts _ (ok_or-eq-ok _ _ h)

  -- A leg keeps the number of accounts, since the call does.
  pub execute_buy_leg-length :
      (kind : DexKind) {after : List AccountInfo}
      → KeepsLength rt
      → execute_buy_leg rt accounts kind base n amount min_out flag ≡ ok after
      → length after ≡ length accounts
  unfolding execute_buy_leg
  execute_buy_leg-length kind keeps h =
      let (ix, _, called) = >>=-eq-ok (buy_instruction accounts kind base n amount min_out) _ h in
      invoked ix _ keeps called

  pub execute_sell_leg-length :
      (kind : DexKind) {after : List AccountInfo}
      → KeepsLength rt
      → execute_sell_leg rt accounts kind base n amount min_out flag ≡ ok after
      → length after ≡ length accounts
  unfolding execute_sell_leg
  execute_sell_leg-length kind keeps h =
      let (ix, _, called) = >>=-eq-ok (sell_instruction accounts kind base n amount min_out) _ h in
      invoked ix _ keeps called
