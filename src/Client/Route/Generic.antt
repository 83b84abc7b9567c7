-- ===== src/Client/Route/Generic.antt =====
-- src/executor/atomic/generic_route.rs, `build_generic_route`: the instruction data of a generic
-- route, with the remaining counts by kind of DEX.
use solana_atomic_arbitrage.Base.{
  ℕ, ◌^◌, ◌<◌, ◌≡◌, ◌≢◌, ◌∙◌, sym, ap, subst, refl, Bool, false, List, Option, some, none, ltb,
  ◌==◌, ◌||◌, if◌then◌else◌,
}
use solana_atomic_arbitrage.Client.Constants as Sent
use solana_atomic_arbitrage.Client.Route.Encode.{build_ix_data}
use solana_atomic_arbitrage.Client.Route.Roundtrip.{parse_args-build_ix_data}
use solana_atomic_arbitrage.Router.Dex.Kind.{whirlpool, identify_dex, validate_dex_section}
use solana_atomic_arbitrage.Router.Dex.Whirlpool
use solana_atomic_arbitrage.Router.Dex.Checks.{require_key}
use solana_atomic_arbitrage.Router.Orchestrate.{buy_base, handle}
use solana_atomic_arbitrage.Router.Orchestrate.Guards.{handle-Admitted}
use solana_atomic_arbitrage.Router.Results.{>>-eq-ok, fail_if-eq-ok, ok-injective}
use solana_atomic_arbitrage.Router.Types.{AccountInfo, Runtime, ok, fail_if}
use mathlib.Core.Option.{some-injective}

abbrev pub dex_kind_pumpswap : ℕ
dex_kind_pumpswap = 0

abbrev pub dex_kind_dlmm : ℕ
dex_kind_dlmm = 1

abbrev pub dex_kind_cpmm : ℕ
dex_kind_cpmm = 2

abbrev pub dex_kind_whirlpool : ℕ
dex_kind_whirlpool = 3

-- `ix_buy_remaining` and `ix_sell_remaining`; the option is the bin count of a DLMM section.
unfoldable pub ix_remaining : ℕ → ℕ → Option ℕ → ℕ
ix_remaining kind remaining bin_count =
    if kind == dex_kind_whirlpool
    then 0
    else if kind == dex_kind_pumpswap
    then remaining
    else if kind == dex_kind_dlmm
    then (elim bin_count [ some n ↦ n | none ↦ 0 ])
    else remaining

unfoldable pub generic_data : ℕ → ℕ → ℕ → Bool → ℕ → ℕ → List ℕ
generic_data investment_lamports min_profit_lamports min_meme_out buy_sol_is_x buy sell =
    build_ix_data Sent.route_disc investment_lamports min_profit_lamports min_meme_out false
      buy_sol_is_x buy sell

-- The Whirlpool section does not accept a count of zero.
validate_section-zero :
    (rt : Runtime) (accounts : List AccountInfo) (base : ℕ)
    → Whirlpool.validate_section rt accounts base 0 ≢ ok tt
unfolding Whirlpool.validate_section
validate_section-zero rt accounts base h =
    let (_, rest) = >>-eq-ok (require_key accounts base _ _) _ h in
    let (counted, _) = >>-eq-ok (fail_if (ltb 0 1 || ltb 3 0) _) _ rest in
    let absurd = fail_if-eq-ok (ltb 0 1 || ltb 3 0) _ counted in cc

-- A generic route with 64-bit amounts, the first two positive, whose first pool is on Whirlpool
-- never succeeds: the client sends a tick array count of zero, which the section validator
-- rejects.
pub generic-whirlpool_fails :
    (rt : Runtime) (accounts final : List AccountInfo) (amount min_profit min_meme : ℕ)
    (sol_is_x : Bool) (remaining sell : ℕ) (bin_count : Option ℕ)
    → amount < 2 ^ 64
    → min_profit < 2 ^ 64
    → min_meme < 2 ^ 64
    → 0 < amount
    → 0 < min_profit
    → identify_dex accounts buy_base ≡ ok (some whirlpool)
    → handle rt accounts (
        generic_data amount min_profit min_meme sol_is_x
          (ix_remaining dex_kind_whirlpool remaining bin_count)
          sell)
      ≢ ok final
unfolding generic_data ix_remaining validate_dex_section
generic-whirlpool_fails rt accounts final amount min_profit min_meme sol_is_x remaining sell
      bin_count ha hp hm pa pp found h =
    let a = handle-Admitted rt accounts _ h in
    let args_eq = ok-injective (
      sym (
        parse_args-build_ix_data Sent.route_disc amount min_profit min_meme false sol_is_x 0 sell
          refl ha hp hm pa pp)
      ∙ a.parsed) in
    let kind_eq = some-injective _ _ (ok-injective (sym found ∙ a.located.buy_found)) in
    validate_section-zero rt accounts buy_base (
      subst (λ n. validate_dex_section rt accounts whirlpool buy_base n ≡ ok tt)
        (sym (ap (λ r. r.first_count) args_eq))
        (subst (λ k. validate_dex_section rt accounts k buy_base a.args.first_count ≡ ok tt)
          (sym kind_eq) a.validated.buy_valid))
