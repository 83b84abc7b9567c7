-- ===== src/Client/Simulator.antt =====
-- src/simulator/: the instructions that the client builds for each DEX itself.
pub mod Loading
pub mod PumpSwap
pub mod Dlmm
pub mod Estimate
pub mod Raydium
pub mod BondingCurve
pub mod Token
pub mod Diagnostic
