-- ===== src/Arbitrage.antt =====
-- src/arbitrage/types.rs and prices/price_query.rs: the integer tests of the scanner.
use solana_atomic_arbitrage.Base.{
  ℕ, ◌-◌, ◌*◌, ◌/◌, Bool, true, false, ◌||◌, ltb, leb, ◌==◌, if◌then◌else◌,
}
use solana_atomic_arbitrage.PoolCache.Grpc.{GeyserPoolCache}

pub data Venue : Type 0 where
  pump_swap_amm : Venue
  meteora_dlmm : Venue
  raydium_ammv4 : Venue
  raydium_cpmm : Venue
  orca_whirlpool : Venue

unfoldable pub is_opportunity_fresh : GeyserPoolCache → ℕ → ℕ → ℕ → Bool
is_opportunity_fresh c snapshot_slot current_slot max_age =
    if (snapshot_slot == 0) || (current_slot == 0)
    then false
    else if ltb 0 c.latest_slot
    then true
    else leb (current_slot - snapshot_slot) max_age

unfoldable pub compute_fee_bps : ℕ → ℕ → ℕ
compute_fee_bps bin_step base_factor =
    if base_factor == 0
    then 100
    else (let fee = bin_step * 10000 / base_factor in if ltb fee 1 then 1 else fee)
