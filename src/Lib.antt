-- ===== src/Lib.antt =====
-- A verification of the atomic arbitrage bot: the on-chain router program (programs/arbitrage) and
-- the parts of the bot that price, build and guard its trades (src).
--
-- The program. The bot buys a meme token with SOL on one DEX and sells it on another in one
-- transaction. The router program runs both legs as cross-program calls and fails the transaction
-- unless the user has gained the least profit that the instruction asks for and holds as many meme
-- tokens as before. The bot computes expected outputs, lays out the accounts of both pools, and
-- encodes 36 bytes of instruction data.
--
-- Base: names that all modules share. Base/Tests has Boolean tests, Base/Lists lists over native
-- numbers, Base/Bytes little-endian integers, Base/Checked and Base/Options Rust's checked
-- arithmetic and `?`, Base/Int signed integers and the casts of Rust's `i64` and
-- `i32`.
--
-- Router models programs/arbitrage/src.
--   Types, Results: what the program takes from the Solana SDK. An account list is passed from step
--     to step, since a call may change it. The runtime is a parameter with two services:
--     `find_program_address` and `invoke`, a call that fails or returns the changed accounts. A
--     result is a value, an error, or `panic` for an index or a slice out of bounds. Public keys are
--     numbers. Slices has the reads of `data[a..b]`.
--   Error, Constants, Instruction, Accounting: error.rs, constants.rs, the parse at the head of each
--     `handle`, accounting.rs.
--   Cpi: cpi/pump_swap.rs, dlmm.rs, cpmm.rs and whirlpool.rs, the instructions of the DEX programs.
--   Dex: instructions/dex_*.rs, the section validators, and `DexKind` of orchestrate.rs.
--   Trade: the flow that the handlers share, with its two legs as arguments.
--   Legs, Orchestrate: instructions/orchestrate.rs. Legacy: route_pump_to_dlmm.rs and
--     route_dlmm_to_pump.rs. Entry: lib.rs.
--   Pricing: pricing/mod.rs, pump_swap.rs and dlmm.rs.
--
-- Client models the bot's instructions and estimates.
--   Constants (src/constants.rs), Pda and Pool (src/simulator/pumpswap), Estimate
--     (src/simulator/mod.rs), Route (src/executor/atomic/onchain_router.rs and generic_route.rs).
--     Client/Route/Accepted puts the two sides together.
--   Simulator: PumpSwap (src/simulator/pumpswap/mod.rs), Dlmm and Estimate (src/simulator/dlmm/mod.rs),
--     Raydium (cpmm.rs, ammv4.rs), BondingCurve (bonding_curve.rs), Token and Diagnostic (mod.rs).
--     Simulator/Loading relates the metas that the bot sends to those that the router reads back.
--
-- Risk models src/risk/mod.rs: the limits on a trade, the circuit breaker, the counters.
--
-- Executor: RpcPool (src/executor/rpc_pool.rs), Nonce (nonce.rs), PoolMeta (atomic/helpers.rs) and
-- Confirmation (confirmation.rs).
--
-- PoolCache models the bot's view of the chain: Entry and Node (src/pool_cache/types.rs), Dlmm
-- (dlmm/bins.rs), Cpmm (cpmm.rs), Whirlpool (whirlpool.rs), AmmV4 (ammv4.rs), Pump (bonding_curve),
-- Queries (mod.rs), Grpc (src/grpc_stream/mod.rs). Arbitrage has the integer tests of src/arbitrage.
--
-- Examples: a small world of accounts, runs of the handlers in it, and the theorems applied to it.
--
-- Bounds. Loops are structural, so no fuel is needed: the 70 bins of an array and the remaining
-- accounts of a section are counted down. Amounts are natural numbers; a width appears as a
-- hypothesis or as the modulus of a checked operation or cast. A clock is an argument of the call
-- that reads it, in nanoseconds for an instant; the RPC node is a record of functions, the node as the
-- calls of one operation see it; a static that the code locks is state that a function takes and
-- returns.
--
-- Not modelled: the DEX programs and the SDK (parameters), log messages, and of the bot its network
-- input and output, its floating-point prices, its persistence and its configuration. The risk
-- tracker's amounts are floating point too: they are an abstract type (Base/Float) without laws.
pub mod Base
pub mod Arbitrage
pub mod Risk
pub mod Router
pub mod Client
pub mod Executor
pub mod PoolCache
pub mod Examples
