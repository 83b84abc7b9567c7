-- ===== src/Router/Dex.antt =====
-- programs/arbitrage/src/instructions/dex_*.rs: what each DEX section of the account list has to
-- hold before the router calls the DEX.
pub mod Checks
pub mod PumpSwap
pub mod Dlmm
pub mod Cpmm
pub mod Whirlpool
pub mod Kind
