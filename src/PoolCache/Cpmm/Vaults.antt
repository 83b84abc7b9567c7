-- ===== src/PoolCache/Cpmm/Vaults.antt =====
-- src/pool_cache/cpmm.rs: the vaults that `fetch_cpmm_pool` puts beside the mints.
use mathlib.Core.Option.{some-injective}
use solana_atomic_arbitrage.Base.{
  ℕ, ◌≡◌, ◌⊎◌, sym, inl, inr, ap, subst, false, ◌&&◌, ◌||◌, some, Bool-cases, length, ltb, ◌/=◌,
  arith,
}
use solana_atomic_arbitrage.Base.Options.{>>=-eq-some, none_if-eq-some, none_if}
use solana_atomic_arbitrage.Client.Simulator.Raydium.{PoolStateData}
use solana_atomic_arbitrage.Client.Pool.{key_at}
use solana_atomic_arbitrage.PoolCache.Node.{Node, vault_balances}
use solana_atomic_arbitrage.PoolCache.Cpmm.{find_pool, mints_differ, read_pool, vault_pda}
use solana_atomic_arbitrage.Router.Types.{Pubkey, Runtime}

-- Each vault is the derived address of its own mint, or of the other mint.
abbrev pub OwnVaults : Runtime → PoolStateData → Type 0
OwnVaults rt s =
    (s.token_0_vault ≡ vault_pda rt s.pool_pubkey s.token_0_mint)
    × (s.token_1_vault ≡ vault_pda rt s.pool_pubkey s.token_1_mint)

abbrev pub CrossedVaults : Runtime → PoolStateData → Type 0
CrossedVaults rt s =
    (s.token_0_vault ≡ vault_pda rt s.pool_pubkey s.token_1_mint)
    × (s.token_1_vault ≡ vault_pda rt s.pool_pubkey s.token_0_mint)

either_order :
    (m0 m1 t0 t1 : ℕ)
    → (((m0 /= t0) || (m1 /= t1)) && ((m0 /= t1) || (m1 /= t0))) ≡ false
    → ((m0 ≡ t0) × (m1 ≡ t1)) ⊎ ((m0 ≡ t1) × (m1 ≡ t0))
either_order m0 m1 t0 t1 h = elim (Bool-cases ((m0 /= t0) || (m1 /= t1))) [
  | inl differ ↦ inr (ground arith, ground arith)
  | inr agree ↦ inl (ground arith, ground arith)
]

abbrev InOrder : Runtime → Pubkey → Pubkey → PoolStateData → Type 0
InOrder rt t0 t1 s =
    ((s.token_0_mint ≡ t0) × (s.token_1_mint ≡ t1) × OwnVaults rt s)
    ⊎ ((s.token_0_mint ≡ t1) × (s.token_1_mint ≡ t0) × CrossedVaults rt s)

in_order :
    (rt : Runtime) (pool t0 t1 m0 m1 config : Pubkey) (raw_0 raw_1 : ℕ)
    → ((m0 ≡ t0) × (m1 ≡ t1)) ⊎ ((m0 ≡ t1) × (m1 ≡ t0))
    → InOrder rt t0 t1 (record {
      pool_pubkey = pool;
      config_pubkey = config;
      token_0_mint = m0;
      token_1_mint = m1;
      token_0_vault = vault_pda rt pool t0;
      token_1_vault = vault_pda rt pool t1;
      token_0_vault_raw = raw_0;
      token_1_vault_raw = raw_1;
    })
in_order rt pool t0 t1 m0 m1 config raw_0 raw_1 (inl (e0, e1)) =
    inl (e0, e1, (ap (vault_pda rt pool) (sym e0), ap (vault_pda rt pool) (sym e1)))
in_order rt pool t0 t1 m0 m1 config raw_0 raw_1 (inr (e0, e1)) =
    inr (e0, e1, (ap (vault_pda rt pool) (sym e1), ap (vault_pda rt pool) (sym e0)))

-- A pool that was read for two mints has them in the order asked with each vault derived from its
-- own mint, or in the other order with each vault derived from the other mint.
pub read_pool-vaults :
    (rt : Runtime) (node : Node) (t0 t1 : Pubkey) (s : PoolStateData)
    → read_pool rt node t0 t1 ≡ some s
    → ((s.token_0_mint ≡ t0) × (s.token_1_mint ≡ t1) × OwnVaults rt s)
      ⊎ ((s.token_0_mint ≡ t1) × (s.token_1_mint ≡ t0) × CrossedVaults rt s)
unfolding read_pool mints_differ
read_pool-vaults rt node t0 t1 s h =
    let (found, _, h₁) = >>=-eq-some (find_pool rt node t0 t1) _ h in
    let (account, _, h₂) = >>=-eq-some (node.get_account found.1) _ h₁ in
    let (_, _, h₃) = >>=-eq-some (none_if (ltb (length account.bytes) 232)) _ h₂ in
    let (_, checked, h₄) =
      >>=-eq-some
        (none_if (mints_differ (key_at account.bytes 168) (key_at account.bytes 200) t0 t1)) _ h₃ in
    let agreed =
      none_if-eq-some (mints_differ (key_at account.bytes 168) (key_at account.bytes 200) t0 t1)
        checked in
    let amounts = vault_balances node (vault_pda rt found.1 t0) (vault_pda rt found.1 t1) in
    subst (InOrder rt t0 t1) (some-injective _ _ h₄)
      (in_order rt found.1 t0 t1 _ _ found.0 amounts.0 amounts.1 (either_order _ _ t0 t1 agreed))
