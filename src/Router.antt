-- ===== src/Router.antt =====
-- programs/arbitrage: the on-chain router program.
pub mod Types
pub mod Results
pub mod Slices
pub mod Error
pub mod Constants
pub mod Accounting
pub mod Cpi
pub mod Dex
pub mod Instruction
pub mod Pricing
pub mod Trade
pub mod Legs
pub mod Orchestrate
pub mod Legacy
pub mod Entry
