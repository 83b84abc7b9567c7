-- ===== src/Risk/Counters.antt =====
-- src/risk/mod.rs: the trade counters over a history of calls.
use solana_atomic_arbitrage.Base.{
  ℕ, ◌+◌, ◌≤◌, ◌<◌, ◌≡◌, Bool, false, List, [], ◌∷◌, none, some, length, subst, ◌==◌, ◌/=◌,
  if◌then◌else◌, arith, inl, inr, Option-cases,
}
use solana_atomic_arbitrage.Base.Checked.{u64_mod}
use solana_atomic_arbitrage.Base.Float.{Float}
use solana_atomic_arbitrage.Risk.{
  RiskTracker, Opportunity, RiskConfig, new, check_limits, pass_breaker, clear_breaker, roll_date,
  apply_limits, trip_projected, record_submitted, record_confirmation, check_circuit_breaker,
  count_confirmation, add_pnl,
}
use solana_atomic_arbitrage.Risk.Breaker.{Call, checked, submitted, confirmed, step, run}

module _ {ℓ} {F : Type ℓ} ⦃f : Float F⦄ where
  -- A check that gets past the breaker on another date starts the counters again.
  abbrev starts_day : RiskTracker F → ℕ → ℕ → Bool
  starts_day t now today = elim (pass_breaker t now) [
    | none ↦ false
    | some t' ↦ today /= t'.current_date
  ]

  -- Confirmations of the day for which no trade was pending.
  unfoldable pub step_orphans : RiskTracker F → ℕ × Call F → ℕ → ℕ
  step_orphans t (now, checked opp today) n = if starts_day t now today then 0 else n
  step_orphans t (now, submitted) n = n
  step_orphans t (now, confirmed pnl succeeded) n = if t.trades_pending == 0 then n + 1 else n

  unfoldable pub orphans : RiskConfig F → RiskTracker F → List (ℕ × Call F) → ℕ → ℕ
  orphans risk t [] n = n
  orphans risk t (c ∷ cs) n = orphans risk (step risk t c) cs (step_orphans t c n)

  -- `calls` bounds the calls made so far.
  pub record IsCounted (calls : ℕ) (unmatched : ℕ) (t : RiskTracker F) : Type 0 where
    pub balanced :
        t.trades_attempted + unmatched
        ≡ t.trades_pending + (t.trades_succeeded + t.trades_failed_onchain)
    pub pending_bound : t.trades_pending ≤ t.trades_attempted
    pub attempted_bound : t.trades_attempted ≤ calls
    pub confirmed_bound : t.trades_succeeded + t.trades_failed_onchain ≤ calls

  -- The counters of one tracker are those of the other.
  pub record SameCounters (t u : RiskTracker F) : Type 0 where
    pub attempted : t.trades_attempted ≡ u.trades_attempted
    pub pending : t.trades_pending ≡ u.trades_pending
    pub succeeded : t.trades_succeeded ≡ u.trades_succeeded
    pub failed : t.trades_failed_onchain ≡ u.trades_failed_onchain

  apply_limits-SameCounters :
      (t : RiskTracker F) (opp : Opportunity F) (risk : RiskConfig F) (now : ℕ)
      → SameCounters (apply_limits t opp risk now).0 t
  unfolding apply_limits trip_projected
  apply_limits-SameCounters t opp risk now = ground arith

  check_circuit_breaker-SameCounters :
      (t : RiskTracker F) (risk : RiskConfig F) (now : ℕ)
      → SameCounters (check_circuit_breaker t risk now) t
  unfolding check_circuit_breaker
  check_circuit_breaker-SameCounters t risk now = ground arith

  pass_breaker-SameCounters :
      (t t' : RiskTracker F) (now : ℕ) → pass_breaker t now ≡ some t' → SameCounters t' t
  unfolding pass_breaker clear_breaker
  pass_breaker-SameCounters t t' now e = ground arith

  module _ (risk : RiskConfig F) (calls unmatched : ℕ) (small : calls + 1 < u64_mod) where
    checked-IsCounted :
        (t : RiskTracker F) (opp : Opportunity F) (now today : ℕ)
        → IsCounted calls unmatched t
        → IsCounted
            (calls + 1)
            (step_orphans t (now, checked opp today) unmatched)
            (check_limits t opp risk now today).0
    unfolding check_limits step_orphans roll_date
    checked-IsCounted t opp now today g = elim (Option-cases (pass_breaker t now)) [
      | inl e ↦ ground arith
      | inr (t', e) ↦ ground (
        arith,
        pass_breaker-SameCounters t t' now e,
        apply_limits-SameCounters (roll_date t' today) opp risk now,
      )
    ]

    confirmed-IsCounted :
        (t : RiskTracker F) (pnl : F) (ok : Bool) (now : ℕ)
        → IsCounted calls unmatched t
        → IsCounted
            (calls + 1)
            (step_orphans t (now, confirmed pnl ok) unmatched)
            (record_confirmation t pnl ok risk now)
    unfolding record_confirmation count_confirmation add_pnl step_orphans
    confirmed-IsCounted t pnl ok now g = ground (
      arith,
      check_circuit_breaker-SameCounters (add_pnl (count_confirmation t pnl ok) pnl) risk now,
    )

    submitted-IsCounted :
        (t : RiskTracker F)
        → IsCounted calls unmatched t
        → IsCounted (calls + 1) unmatched (record_submitted t)
    unfolding record_submitted
    submitted-IsCounted t g = ground arith

  step-IsCounted :
      (risk : RiskConfig F) (calls unmatched : ℕ) (t : RiskTracker F) (c : ℕ × Call F)
      → calls + 1 < u64_mod
      → IsCounted calls unmatched t
      → IsCounted (calls + 1) (step_orphans t c unmatched) (step risk t c)
  unfolding step
  step-IsCounted risk calls n t (now, checked opp today) h g =
      checked-IsCounted risk calls n h t opp now today g
  step-IsCounted risk calls n t (now, submitted) h g =
      unfold step_orphans in submitted-IsCounted risk calls n h t g
  step-IsCounted risk calls n t (now, confirmed pnl ok) h g =
      confirmed-IsCounted risk calls n h t pnl ok now g

  run-IsCounted_from :
      (risk : RiskConfig F) (calls unmatched : ℕ) (t : RiskTracker F) (cs : List (ℕ × Call F))
      → calls + length cs < u64_mod
      → IsCounted calls unmatched t
      → IsCounted (calls + length cs) (orphans risk t cs unmatched) (run risk t cs)
  unfolding run orphans
  run-IsCounted_from risk calls n t [] h g = ground arith
  run-IsCounted_from risk calls n t (c ∷ cs) h g =
      subst (λ k. IsCounted k (orphans risk t (c ∷ cs) n) (run risk t (c ∷ cs)))
        {x = (calls + 1) + length cs} (omega arith)
        (run-IsCounted_from risk (calls + 1) (step_orphans t c n) (step risk t c) cs (omega arith)
          (step-IsCounted risk calls n t c (omega arith) g))

  -- After a history of fewer than 2 ^ 64 calls from a new tracker, the attempts of the day and the
  -- confirmations with nothing pending together are the trades pending, succeeded and failed, at
  -- most as many are pending as were attempted, and no counter has wrapped.
  pub run-IsCounted :
      (risk : RiskConfig F) (date : ℕ) (cs : List (ℕ × Call F))
      → length cs < u64_mod
      → IsCounted (length cs) (orphans risk (new date) cs 0) (run risk (new date) cs)
  unfolding new
  run-IsCounted risk date cs h =
      subst (λ k. IsCounted k (orphans risk (new date) cs 0) (run risk (new date) cs))
        {x = 0 + length cs} (omega arith)
        (run-IsCounted_from risk 0 0 (new date) cs (omega arith) (ground arith))
