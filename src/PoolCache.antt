-- ===== src/PoolCache.antt =====
-- src/pool_cache/: the cached state of liquidity pools.
pub mod Entry
pub mod Node
pub mod Dlmm
pub mod Grpc
pub mod Cpmm
pub mod Whirlpool
pub mod Queries
pub mod Pump
pub mod AmmV4
