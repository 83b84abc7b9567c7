-- ===== src/Examples.antt =====
-- Examples: runs of the modelled code, and the theorems at concrete inputs.
mod Accounts
mod Router
mod Client
mod Pricing
mod Legacy
mod Bot
mod Simulator
mod Caches
