-- ===== src/Client.antt =====
-- The off-chain bot: what it computes for a route and sends to the router.
pub mod Constants
pub mod Pda
pub mod Pool
pub mod Estimate
pub mod Simulator
pub mod Route
