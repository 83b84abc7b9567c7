-- ===== src/Executor/Confirmation.antt =====
-- src/executor/confirmation.rs: the pending confirmations and their settlement in the risk tracker.
-- Signatures are taken as parsed, so that the list of signatures is that of the pending
-- transactions. The status of a transaction is whether it succeeded; its balance change, in SOL, is
-- what `extract_actual_pnl` returns. Metrics, the database and log messages are left out.
use solana_atomic_arbitrage.Base.{
  ℕ, ◌+◌, ◌-◌, Bool, List, [], ◌∷◌, ◌++◌, Option, none, some, length, take, drop, ltb,
  if◌then◌else◌,
}
use solana_atomic_arbitrage.Base.Float.{Float}
use solana_atomic_arbitrage.Risk.{RiskTracker, RiskConfig, record_confirmation}

-- The fields of `PendingConfirmation` that the settlement reads.
pub record PendingConfirmation {ℓ} (F : Type ℓ) : Type ℓ where
  pub signature : ℕ
  pub estimated_net_profit_sol : F
  pub priority_fee_sol : F

module _ {ℓ} {F : Type ℓ} ⦃f : Float F⦄ where
  -- The estimate in place of balances that cannot be read; `base_fee` is 0.000_005.
  unfoldable pub fallback_pnl : F → PendingConfirmation F → Bool → F
  fallback_pnl base_fee p succeeded =
      if succeeded then p.estimated_net_profit_sol else f.neg (f.add p.priority_fee_sol base_fee)

  -- The two branches of `match actual_pnl`.
  unfoldable pub settle :
      F → RiskConfig F → ℕ → PendingConfirmation F → Bool → Option F → RiskTracker F → RiskTracker F
  settle base_fee risk now p succeeded actual_pnl t = elim actual_pnl [
    | some pnl ↦ record_confirmation t pnl succeeded risk now
    | none ↦ record_confirmation t (fallback_pnl base_fee p succeeded) succeeded risk now
  ]

  -- The loop over the statuses from index `i` on: the tracker, and the indices to remove.
  unfoldable pub settle_all :
      F
      → RiskConfig F
      → ℕ
      → (ℕ → Option F)
      → ℕ
      → List (PendingConfirmation F)
      → List (Option Bool)
      → RiskTracker F
      → RiskTracker F × List ℕ
  settle_all base_fee risk now pnl_of i (p ∷ ps) (none ∷ statuses) t =
      settle_all base_fee risk now pnl_of (i + 1) ps statuses t
  settle_all base_fee risk now pnl_of i (p ∷ ps) (some succeeded ∷ statuses) t =
      let (t', to_remove) =
        settle_all base_fee risk now pnl_of (i + 1) ps statuses
          (settle base_fee risk now p succeeded (pnl_of p.signature) t) in
      (t', i ∷ to_remove)
  settle_all base_fee risk now pnl_of i _ _ t = (t, [])

module _ {ℓ} {A : Type ℓ} where
  -- `Vec::swap_remove`, for an index in range: the last element takes the place of the removed one.
  unfoldable pub swap_remove : List A → ℕ → List A
  swap_remove xs i =
      let n = length xs in
      if ltb (i + 1) n
      then take i xs ++ (drop (n - 1) xs ++ drop (i + 1) (take (n - 1) xs))
      else take i xs

  -- The removal in the order from back to front, of indices given in the order of the loop.
  unfoldable pub remove_all : List A → List ℕ → List A
  remove_all xs [] = xs
  remove_all xs (i ∷ is) = swap_remove (remove_all xs is) i

  -- More than 128 pending: all but the last 64 are dropped.
  unfoldable pub evict : List A → List A
  evict pending = if ltb 128 (length pending) then drop (length pending - 64) pending else pending

module _ {ℓ} {F : Type ℓ} ⦃f : Float F⦄ where
  unfoldable pub process_statuses :
      F
      → RiskConfig F
      → ℕ
      → (ℕ → Option F)
      → List (Option Bool)
      → RiskTracker F × List (PendingConfirmation F)
      → RiskTracker F × List (PendingConfirmation F)
  process_statuses base_fee risk now pnl_of statuses (t, pending) =
      let (t', to_remove) = settle_all base_fee risk now pnl_of 0 pending statuses t in
      (t', remove_all pending to_remove)

  -- One round of the task: new submissions, the statuses unless the call fails, the eviction.
  unfoldable pub poll :
      F
      → RiskConfig F
      → ℕ
      → (ℕ → Option F)
      → Option (List (Option Bool))
      → List (PendingConfirmation F)
      → RiskTracker F × List (PendingConfirmation F)
      → RiskTracker F × List (PendingConfirmation F)
  poll base_fee risk now pnl_of none received (t, pending) = (t, evict (pending ++ received))
  poll base_fee risk now pnl_of (some statuses) received (t, pending) =
      let (t', left) =
        process_statuses base_fee risk now pnl_of statuses (t, pending ++ received) in
      (t', evict left)
