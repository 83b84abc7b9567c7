-- ===== src/Router/Pricing.antt =====
-- programs/arbitrage/src/pricing: what a pool's reserves promise for an input.
pub mod Cpmm
pub mod PumpSwap
pub mod Dlmm
