-- ===== src/Router/Legacy.antt =====
-- The two routes with handlers of their own: PumpSwap to DLMM and DLMM to PumpSwap.
pub mod Shared
pub mod PumpToDlmm
pub mod DlmmToPump
pub mod Safety
pub mod Guards
pub mod Traded
