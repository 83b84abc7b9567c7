-- ===== src/Router/Entry/Profit.antt =====
-- programs/arbitrage/src/lib.rs: a successful instruction and the user's balances.
use solana_atomic_arbitrage.Base.{ℕ, ◌≡◌, ◌<◌, List, arith, length, ltb, subst}
use solana_atomic_arbitrage.Router.Slices.{slice_at, read_u64}
use solana_atomic_arbitrage.Router.Constants
use solana_atomic_arbitrage.Router.Types.{AccountInfo, Runtime, ok, fail_if}
use solana_atomic_arbitrage.Router.Results.{>>=-eq-ok, >>-eq-ok}
use solana_atomic_arbitrage.Router.Instruction.{RouteArgs, parse_args, parse_args-eq-ok}
use solana_atomic_arbitrage.Router.Trade.Profit.{IsProfitable, trade-Completed}
use solana_atomic_arbitrage.Router.Orchestrate
use solana_atomic_arbitrage.Router.Legacy.PumpToDlmm
use solana_atomic_arbitrage.Router.Legacy.DlmmToPump
use solana_atomic_arbitrage.Router.Entry.{dispatch, process_instruction}

-- The least profit that the instruction data ask for, at offset 16.
abbrev pub asked_profit : List ℕ → ℕ
asked_profit bytes = read_u64 bytes Constants.off_min_profit

abbrev Guaranteed : List ℕ → List AccountInfo → List AccountInfo → Type 0
Guaranteed bytes accounts final =
    (0 < asked_profit bytes) × IsProfitable (asked_profit bytes) accounts final

module _ (rt : Runtime) (accounts : List AccountInfo) (bytes : List ℕ)
    {final : List AccountInfo} where
  guarantee :
      {args : RouteArgs}
      → parse_args bytes ≡ ok args
      → IsProfitable args.min_profit accounts final
      → Guaranteed bytes accounts final
  guarantee parsed p =
      let (asked, _, _, positive) = parse_args-eq-ok bytes parsed in
      (subst (λ n. 0 < n) asked positive, subst (λ n. IsProfitable n accounts final) asked p)

  orchestrate-Guaranteed :
      Orchestrate.handle rt accounts bytes ≡ ok final → Guaranteed bytes accounts final
  unfolding Orchestrate.handle Orchestrate.run_route
  orchestrate-Guaranteed h =
      let (args, parsed, h₁) = >>=-eq-ok (parse_args bytes) _ h in
      let (route, _, h₂) = >>=-eq-ok (Orchestrate.locate accounts args) _ h₁ in
      let (_, h₃) = >>-eq-ok (Orchestrate.validate rt accounts args route) _ h₂ in
      guarantee parsed (trade-Completed _ _ _ accounts h₃).profit

  pump_to_dlmm-Guaranteed :
      PumpToDlmm.handle rt accounts bytes ≡ ok final → Guaranteed bytes accounts final
  unfolding PumpToDlmm.handle
  pump_to_dlmm-Guaranteed h =
      let (args, parsed, h₁) = >>=-eq-ok (parse_args bytes) _ h in
      let (_, h₂) = >>-eq-ok _ _ h₁ in
      let (_, h₃) = >>-eq-ok _ _ h₂ in
      let (_, h₄) = >>-eq-ok _ _ h₃ in guarantee parsed (trade-Completed _ _ _ accounts h₄).profit

  dlmm_to_pump-Guaranteed :
      DlmmToPump.handle rt accounts bytes ≡ ok final → Guaranteed bytes accounts final
  unfolding DlmmToPump.handle
  dlmm_to_pump-Guaranteed h =
      let (args, parsed, h₁) = >>=-eq-ok (parse_args bytes) _ h in
      let (_, h₂) = >>-eq-ok _ _ h₁ in
      let (_, h₃) = >>-eq-ok _ _ h₂ in
      let (_, h₄) = >>-eq-ok _ _ h₃ in guarantee parsed (trade-Completed _ _ _ accounts h₄).profit

  dispatch-Guaranteed :
      (disc : List ℕ) → dispatch rt accounts bytes disc ≡ ok final → Guaranteed bytes accounts final
  unfolding dispatch
  dispatch-Guaranteed disc h =
      ground (arith, orchestrate-Guaranteed, pump_to_dlmm-Guaranteed, dlmm_to_pump-Guaranteed)

  -- If process_instruction succeeds, by any of the three routes, the least profit at offset 16 of
  -- the data is positive, the user's aggregate SOL balance has grown by it at least, and the meme
  -- token balance is unchanged.
  pub process_instruction-IsProfitable :
      process_instruction rt accounts bytes ≡ ok final
      → (0 < asked_profit bytes) × IsProfitable (asked_profit bytes) accounts final
  unfolding process_instruction
  process_instruction-IsProfitable h =
      let (_, dispatched) = >>-eq-ok (fail_if (ltb (length bytes) 8) _) _ h in
      let (disc, _, routed) = >>=-eq-ok (slice_at bytes 0 8) _ dispatched in
      dispatch-Guaranteed disc routed
