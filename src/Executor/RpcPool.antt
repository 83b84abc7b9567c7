-- ===== src/Executor/RpcPool.antt =====
-- src/executor/rpc_pool.rs: the round robin over RPC endpoints. A client is an abstract value made
-- from its URL; the counter is the atomic 64-bit one, so that a call is one step.
pub mod Fairness
use solana_atomic_arbitrage.Base.{
  ℕ, suc, ◌+◌, ◌%◌, List, [], ◌∷◌, Option, none, some, length, map, get_elem?, ◌++◌,
}
use solana_atomic_arbitrage.Base.Checked.{u64_mod}

pub record RpcPool {ℓ} (C : Type ℓ) : Type ℓ where
  pub clients : List C
  pub counter : ℕ

module _ {ℓ κ} {Url : Type ℓ} {C : Type κ} where
  -- `connect` stands for `RpcClient::new_with_timeout` at the given timeout.
  unfoldable pub new : (Url → C) → Url → List Url → RpcPool C
  new connect primary_url fallback_urls = record {
    clients = map connect (primary_url ∷ fallback_urls);
    counter = 0;
  }

module _ {ℓ} {C : Type ℓ} where
  -- `fetch_add(n) % len`, and the endpoint at that index; `none` is an index out of range.
  unfoldable pub advance : RpcPool C → ℕ → RpcPool C × Option C
  advance p n = (
    record p { counter = (p.counter + n) % u64_mod },
    get_elem? p.clients (p.counter % length p.clients),
  )

  unfoldable pub current : RpcPool C → RpcPool C × Option C
  current p = advance p 1

  unfoldable pub rotate : RpcPool C → RpcPool C × Option C
  rotate p = advance p 2

  unfoldable pub len : RpcPool C → ℕ
  len p = length p.clients
