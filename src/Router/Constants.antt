-- ===== src/Router/Constants.antt =====
-- programs/arbitrage/src/constants.rs.
mod Ids
mod Offsets
pub use Ids.*
pub use Offsets.*
