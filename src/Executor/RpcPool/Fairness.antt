-- ===== src/Executor/RpcPool/Fairness.antt =====
-- src/executor/rpc_pool.rs: every endpoint of a pool has its turn.
use native.Mathlib.Nat.{mod-lt, mod-eq_of_lt, mod-add-mod, add-mod-mod, add-mod_right}
use solana_atomic_arbitrage.Base.{
  ℕ, zero, suc, ◌+◌, ◌-◌, ◌%◌, ◌<◌, ◌≡◌, List, [], ◌∷◌, some, length, get_elem?, arith, refl, ap,
  sym, ◌∙◌,
}
use solana_atomic_arbitrage.Base.Checked.{u64_mod}
use solana_atomic_arbitrage.Executor.RpcPool.{RpcPool, advance, current, rotate, len}

-- The calls until the counter points at the first endpoint.
abbrev counter_gap : ℕ → ℕ → ℕ
counter_gap len counter = len - counter % len

-- The calls to wait until the counter points at `j`.
abbrev pub turn : ℕ → ℕ → ℕ → ℕ
turn len counter j = (counter_gap len counter + j) % len

turn_lem : (len counter j : ℕ) → j < len → (counter + turn len counter j) % len ≡ j
turn_lem len counter j h =
    add-mod-mod counter (counter_gap len counter + j) len
    ∙ sym (mod-add-mod counter len (counter_gap len counter + j))
    ∙ ap (λ n. n % len) (rejoined (mod-lt counter (omega arith)))
    ∙ add-mod_right j len
    ∙ mod-eq_of_lt h
  where
    rejoined : counter % len < len → counter % len + (counter_gap len counter + j) ≡ j + len
    rejoined r = omega arith

module _ {ℓ} {C : Type ℓ} where
  -- The pool after a number of calls of `current`.
  unfoldable pub after : ℕ → RpcPool C → RpcPool C
  after zero p = p
  after (suc n) p = after n (current p).0

  after-clients : (n : ℕ) (p : RpcPool C) → (after n p).clients ≡ p.clients
  unfolding after current advance
  after-clients zero p = refl
  after-clients (suc n) p = after-clients n (current p).0

  after-counter :
      (n : ℕ) (p : RpcPool C) → p.counter + n < u64_mod → (after n p).counter ≡ p.counter + n
  unfolding after current advance
  after-counter zero p h = omega arith
  after-counter (suc n) p h = omega (arith, after-counter n (current p).0 (omega arith))

  lt_of_found : (xs : List C) (i : ℕ) {c : C} → get_elem? xs i ≡ some c → i < length xs
  lt_of_found [] i h = cc
  lt_of_found (x ∷ xs) zero h = omega arith
  lt_of_found (x ∷ xs) (suc i) h = omega (arith, lt_of_found xs i h)

  -- For every endpoint of the pool, and a counter that does not wrap within one round, some number
  -- of further calls below the number of endpoints makes the next call return it.
  pub current-reaches :
      (p : RpcPool C) (j : ℕ) (c : C)
      → p.counter + length p.clients < u64_mod
      → get_elem? p.clients j ≡ some c
      → (n : ℕ) × (n < length p.clients) × ((current (after n p)).1 ≡ some c)
  unfolding current advance
  current-reaches p j c h found =
      let inside : j < length p.clients = lt_of_found p.clients j found in
      let wait = turn (length p.clients) p.counter j in
      let soon : wait < length p.clients = mod-lt _ (omega arith) in
      (
        wait,
        soon,
        rw (after-clients wait p) (
            rw (after-counter wait p (omega arith))
              (rw (turn_lem (length p.clients) p.counter j inside) found)),
      )

  -- In a pool of three endpoints whose counter does not wrap, the call that follows a call and a
  -- rotation returns the endpoint of the first call again.
  pub current-rotate_of_three :
      (p : RpcPool C) (a b c : C)
      → p.clients ≡ a ∷ b ∷ c ∷ []
      → p.counter + 3 < u64_mod
      → (current (rotate (current p).0).0).1 ≡ (current p).1
  unfolding current rotate advance
  current-rotate_of_three p a b c e h =
      let same : ((p.counter + 1) % u64_mod + 2) % u64_mod % 3 ≡ p.counter % 3 = omega arith in
      rw e (ap (λ i. get_elem? (a ∷ b ∷ c ∷ []) i) same)
