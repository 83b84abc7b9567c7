-- ===== src/Router/Cpi.antt =====
-- programs/arbitrage/src/cpi: the builders of the four DEX instructions.
pub mod Metas
pub mod PumpSwap
pub mod Dlmm
pub mod Cpmm
pub mod Whirlpool
