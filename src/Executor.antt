-- ===== src/Executor.antt =====
-- src/executor/: RPC endpoints, the durable nonce, PumpSwap pool metadata, confirmations.
pub mod RpcPool
pub mod Nonce
pub mod PoolMeta
pub mod Confirmation
