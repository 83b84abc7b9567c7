-- ===== src/Client/Simulator/Diagnostic/Effect.antt =====
-- src/simulator/mod.rs, `zero_min_out_onchain`, against the data that the client sends and the
-- router parses.
use solana_atomic_arbitrage.Base.{
  ℕ, ◌^◌, ◌/◌, ◌%◌, ◌<◌, ◌≡◌, ◌≢◌, ◌∙◌, sym, ap, subst, Bool, true, false, List, [], ◌∷◌, ◌++◌,
  length, refl, arith,
}
use solana_atomic_arbitrage.Base.Bytes.{to_le_bytes}
use solana_atomic_arbitrage.Client.Constants
use solana_atomic_arbitrage.Client.Route.Encode.{build_ix_data}
use solana_atomic_arbitrage.Client.Route.Roundtrip.{parse_args-build_ix_data}
use solana_atomic_arbitrage.Router.Instruction.{RouteArgs, parse_args}
use solana_atomic_arbitrage.Router.Legacy.Shared.{check_counts}
use solana_atomic_arbitrage.Router.Legacy.PumpToDlmm
use solana_atomic_arbitrage.Router.Legacy.DlmmToPump
use solana_atomic_arbitrage.Router.Legacy.Guards.{
  pump_to_dlmm-BoughtOnPump, dlmm_to_pump-BoughtOnDlmm,
}
use solana_atomic_arbitrage.Router.Results.{ok-injective}
use solana_atomic_arbitrage.Router.Types.{AccountInfo, Runtime, ok, fail_if}
use solana_atomic_arbitrage.Client.Simulator.Diagnostic.{zero_min_out_onchain}

-- The four low bytes, with four zeros behind them, are those of the number modulo 2 ^ 32.
low_half : (m : ℕ) → to_le_bytes 4 m ++ (0 ∷ 0 ∷ 0 ∷ 0 ∷ []) ≡ to_le_bytes 8 (m % 2 ^ 32)
unfolding to_le_bytes
low_half m = λ i. b₀ i ∷ b₁ i ∷ b₂ i ∷ b₃ i ∷ b₄ i ∷ b₅ i ∷ b₆ i ∷ b₇ i ∷ []
  where
    b₀ : m % 256 ≡ m % 2 ^ 32 % 256
    b₀ = omega arith

    b₁ : m / 256 % 256 ≡ m % 2 ^ 32 / 256 % 256
    b₁ = omega arith

    b₂ : m / 256 / 256 % 256 ≡ m % 2 ^ 32 / 256 / 256 % 256
    b₂ = omega arith

    b₃ : m / 256 / 256 / 256 % 256 ≡ m % 2 ^ 32 / 256 / 256 / 256 % 256
    b₃ = omega arith

    b₄ : 0 ≡ m % 2 ^ 32 / 256 / 256 / 256 / 256 % 256
    b₄ = omega arith

    b₅ : 0 ≡ m % 2 ^ 32 / 256 / 256 / 256 / 256 / 256 % 256
    b₅ = omega arith

    b₆ : 0 ≡ m % 2 ^ 32 / 256 / 256 / 256 / 256 / 256 / 256 % 256
    b₆ = omega arith

    b₇ : 0 ≡ m % 2 ^ 32 / 256 / 256 / 256 / 256 / 256 / 256 / 256 % 256
    b₇ = omega arith

-- The discriminator is one of the two legacy routes', or the generic one.
pub data IsRouteDisc : List ℕ → Type 0 where
  pump_to_dlmm : IsRouteDisc Constants.route_pump_to_dlmm_disc
  dlmm_to_pump : IsRouteDisc Constants.route_dlmm_to_pump_disc
  generic : IsRouteDisc Constants.route_disc

-- The rewrite clears the flags and the counts, and keeps the low half of the least meme amount.
pub zero_min_out_onchain-build_ix_data :
    {disc : List ℕ} (route : IsRouteDisc disc) (amount min_profit min_meme first second : ℕ)
    (track sol_is_x : Bool)
    → zero_min_out_onchain
        (build_ix_data disc amount min_profit min_meme track sol_is_x first second)
      ≡ (build_ix_data disc amount min_profit (min_meme % 2 ^ 32) false false 0 0, true)
unfolding zero_min_out_onchain build_ix_data to_le_bytes
zero_min_out_onchain-build_ix_data pump_to_dlmm a p m first second track sol_is_x = λ i. (
  Constants.route_pump_to_dlmm_disc
      ++ (to_le_bytes 8 a ++ (to_le_bytes 8 p ++ (low_half m i ++ 0 ∷ 0 ∷ 0 ∷ 0 ∷ []))),
  true,
)
zero_min_out_onchain-build_ix_data dlmm_to_pump a p m first second track sol_is_x = λ i. (
  Constants.route_dlmm_to_pump_disc
      ++ (to_le_bytes 8 a ++ (to_le_bytes 8 p ++ (low_half m i ++ 0 ∷ 0 ∷ 0 ∷ 0 ∷ []))),
  true,
)
zero_min_out_onchain-build_ix_data generic a p m first second track sol_is_x = λ i. (
  Constants.route_disc
      ++ (to_le_bytes 8 a ++ (to_le_bytes 8 p ++ (low_half m i ++ 0 ∷ 0 ∷ 0 ∷ 0 ∷ []))),
  true,
)

zero_counts-ne-ok : check_counts 0 0 ≢ ok tt
unfolding check_counts fail_if
zero_counts-ne-ok = cc

module _ (rt : Runtime) (accounts final : List AccountInfo)
    (amount min_profit min_meme first second : ℕ) (track sol_is_x : Bool) (ha : amount < 2 ^ 64)
    (hp : min_profit < 2 ^ 64) (pa : 0 < amount) (pp : 0 < min_profit) where
  -- What the router reads from the rewritten data.
  abbrev pub rewritten : List ℕ → List ℕ
  rewritten disc =
      (zero_min_out_onchain
        (build_ix_data disc amount min_profit min_meme track sol_is_x first second)).0

  abbrev read_back : RouteArgs
  read_back = record {
    amount_in = amount;
    min_profit = min_profit;
    min_intermediate = min_meme % 2 ^ 32;
    track_volume = false;
    sol_is_x = false;
    first_count = 0;
    second_count = 0;
  }

  parse_args-rewritten :
      {disc : List ℕ}
      → IsRouteDisc disc
      → length disc ≡ 8
      → parse_args (rewritten disc) ≡ ok read_back
  parse_args-rewritten {disc} route h =
      ap (λ r. parse_args r.0)
        (zero_min_out_onchain-build_ix_data route amount min_profit min_meme first second track
          sol_is_x)
      ∙ parse_args-build_ix_data disc amount min_profit (min_meme % 2 ^ 32) false false 0 0 h ha hp
          (omega arith) pa pp

  -- A route whose counts were accepted was not read from rewritten data.
  no_counts :
      (bytes : List ℕ) {args : RouteArgs}
      → parse_args bytes ≡ ok read_back
      → parse_args bytes ≡ ok args
      → check_counts args.first_count args.second_count ≡ ok tt
      → ⊥
  no_counts bytes back parsed counted =
      let e = ok-injective (sym parsed ∙ back) in
      zero_counts-ne-ok
        (subst (λ (x : RouteArgs). check_counts x.first_count x.second_count ≡ ok tt) e counted)

  -- A legacy route with 64-bit amounts, the first two positive, whose data the zero-slippage
  -- diagnostic has rewritten never succeeds, whatever the accounts.
  pub legacy-zero_min_out_onchain :
      (PumpToDlmm.handle rt accounts (rewritten Constants.route_pump_to_dlmm_disc) ≢ ok final)
      × (DlmmToPump.handle rt accounts (rewritten Constants.route_dlmm_to_pump_disc) ≢ ok final)
  legacy-zero_min_out_onchain = (
    λ h.
        let b = pump_to_dlmm-BoughtOnPump rt accounts _ h in
        no_counts _ (parse_args-rewritten pump_to_dlmm refl) b.parsed b.counted,
    λ h.
        let b = dlmm_to_pump-BoughtOnDlmm rt accounts _ h in
        no_counts _ (parse_args-rewritten dlmm_to_pump refl) b.parsed b.counted,
  )
