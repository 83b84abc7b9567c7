-- ===== src/Client/Route/SectionData/Counts.antt =====
-- src/executor/atomic/generic_route.rs, `pumpswap_section_data`, and onchain_router.rs: the two counts
-- of remaining accounts that the routes send for a PumpSwap section.
use solana_atomic_arbitrage.Base.{◌+◌, ◌≡◌, Bool-cases, inl, inr, length, if◌then◌else◌, arith}
use solana_atomic_arbitrage.Client.Pool.{PumpSwapPoolMeta}
use solana_atomic_arbitrage.Client.Route.Layout.{length-sell_remaining}
use solana_atomic_arbitrage.Client.Route.SectionData.{pumpswap_section_data}
use solana_atomic_arbitrage.Client.Route.Sections.{
  RouteKeys, sell_remaining, pumpswap_buy_remaining_count, pumpswap_sell_remaining_count,
}
use solana_atomic_arbitrage.Router.Types.{Pubkey, Runtime}

counts_differ :
    (pool_meta : PumpSwapPoolMeta)
    → pumpswap_sell_remaining_count pool_meta
      ≡ pumpswap_buy_remaining_count pool_meta + (if pool_meta.is_cashback_coin then 1 else 0)
unfolding pumpswap_buy_remaining_count pumpswap_sell_remaining_count
counts_differ pool_meta = elim (Bool-cases pool_meta.is_cashback_coin) [
  | inl c ↦ rw c (omega arith)
  | inr c ↦ rw c (omega arith)
]

-- The count of remaining accounts that the legacy DLMM-to-PumpSwap route sends for its PumpSwap
-- section is the number that the client pushes for a sell; the count that the generic route
-- resolves for a section is this number less one for a cashback coin, and this number for any
-- other.
pub sell_remaining-remaining_count :
    (rt : Runtime) (k : RouteKeys) (pool_meta : PumpSwapPoolMeta) (pool : Pubkey)
    → (length (sell_remaining rt k pool_meta) ≡ pumpswap_sell_remaining_count pool_meta)
      × (length (sell_remaining rt k pool_meta)
          ≡ (pumpswap_section_data pool_meta pool).remaining_count
            + (if pool_meta.is_cashback_coin then 1 else 0))
unfolding pumpswap_section_data
sell_remaining-remaining_count rt k pool_meta pool =
    let pushed = length-sell_remaining rt k pool_meta in
    (pushed, omega (arith, counts_differ pool_meta))
