-- ===== src/Risk/Breaker.antt =====
-- src/risk/mod.rs: the circuit breaker over a whole history of calls. A history lists the calls
-- with the instant of each.
use solana_atomic_arbitrage.Base.{
  ℕ, ◌+◌, ◌*◌, ◌≤◌, ◌≡◌, ◌⊎◌, inl, inr, Bool, true, false, List, [], ◌∷◌, some, refl, All,
  Option-cases, if_ind, arith,
}
use solana_atomic_arbitrage.Base.Float.{Float}
use solana_atomic_arbitrage.Risk.{
  RiskTracker, Opportunity, RiskConfig, breaker_cooldown_secs, new, check_limits, pass_breaker,
  clear_breaker, roll_date, apply_limits, trip_projected, record_submitted, record_confirmation,
  check_circuit_breaker, count_confirmation, add_pnl,
}
use solana_atomic_arbitrage.Risk.Limits.{MayTrade, IsWithinLimits, pnl_today, check_limits_iff}

pub data Call {ℓ} (F : Type ℓ) : Type ℓ where
  checked : Opportunity F → ℕ → Call F
  submitted : Call F
  confirmed : F → Bool → Call F

module _ {ℓ} {F : Type ℓ} ⦃f : Float F⦄ where
  unfoldable pub step : RiskConfig F → RiskTracker F → ℕ × Call F → RiskTracker F
  step risk t (now, checked opp today) = (check_limits t opp risk now today).0
  step risk t (now, submitted) = record_submitted t
  step risk t (now, confirmed pnl succeeded) = record_confirmation t pnl succeeded risk now

  unfoldable pub run : RiskConfig F → RiskTracker F → List (ℕ × Call F) → RiskTracker F
  run risk t [] = t
  run risk t (c ∷ cs) = run risk (step risk t c) cs

  -- A day's loss beyond the limit has tripped the breaker, and a tripped breaker has its instant.
  pub record IsGuarded (risk : RiskConfig F) (latest : ℕ) (t : RiskTracker F) : Type 0 where
    pub loss_blocks :
        (t.circuit_breaker ≡ true) ⊎ (f.lt t.daily_pnl_sol (f.neg risk.max_daily_loss_sol) ≡ false)
    pub blocked_at :
        (t.circuit_breaker ≡ false)
        ⊎ ((triggered : ℕ) × (t.breaker_triggered_at ≡ some triggered) × (triggered ≤ latest))

  IsGuarded-MayTrade :
      {risk : RiskConfig F} {latest : ℕ} (t : RiskTracker F) (now : ℕ)
      → IsGuarded risk latest t
      → latest + breaker_cooldown_secs * 1_000_000_000 ≤ now
      → MayTrade t now
  IsGuarded-MayTrade t now g late = elim g.blocked_at [
    | inl off ↦ inl off
    | inr (triggered, e, h) ↦ inr (triggered, e, omega arith)
  ]

  module _ (risk : RiskConfig F) (latest : ℕ)
      (limit : f.lt f.zero_f64 (f.neg risk.max_daily_loss_sol) ≡ false) where
    clear_breaker-IsGuarded : (t : RiskTracker F) → IsGuarded risk latest (clear_breaker t)
    unfolding clear_breaker
    clear_breaker-IsGuarded t = ground arith

    roll_date-IsGuarded :
        (t : RiskTracker F) (today : ℕ)
        → IsGuarded risk latest t
        → IsGuarded risk latest (roll_date t today)
    unfolding roll_date
    roll_date-IsGuarded t today g = ground arith

    just_tripped :
        (t : RiskTracker F) (now : ℕ)
        → now ≤ latest
        → t.circuit_breaker ≡ true
        → t.breaker_triggered_at ≡ some now
        → IsGuarded risk latest t
    just_tripped t now h on at = record { loss_blocks = inl on; blocked_at = inr (now, at, h) }

    -- A result of the day that the breaker is then checked against.
    check_circuit_breaker-IsGuarded :
        (t : RiskTracker F) (now : ℕ)
        → now ≤ latest
        → ((t.circuit_breaker ≡ false)
            ⊎ ((triggered : ℕ) × (t.breaker_triggered_at ≡ some triggered) × (triggered ≤ latest)))
        → IsGuarded risk latest (check_circuit_breaker t risk now)
    unfolding check_circuit_breaker
    check_circuit_breaker-IsGuarded t now h b =
        if_ind (IsGuarded risk latest) _ (λ _. just_tripped _ now h refl refl)
          (λ small. record { loss_blocks = inr small; blocked_at = b })

    apply_limits-IsGuarded :
        (t : RiskTracker F) (opp : Opportunity F) (now : ℕ)
        → now ≤ latest
        → IsGuarded risk latest t
        → IsGuarded risk latest (apply_limits t opp risk now).0
    unfolding apply_limits trip_projected
    apply_limits-IsGuarded t opp now h g =
        ground (arith, just_tripped (trip_projected t risk now) now h refl refl)

    pass_breaker-IsGuarded :
        (t t' : RiskTracker F) (now : ℕ)
        → pass_breaker t now ≡ some t'
        → IsGuarded risk latest t
        → IsGuarded risk latest t'
    unfolding pass_breaker
    pass_breaker-IsGuarded t t' now e g = ground (arith, clear_breaker-IsGuarded t)

    check_limits-IsGuarded :
        (t : RiskTracker F) (opp : Opportunity F) (now today : ℕ)
        → now ≤ latest
        → IsGuarded risk latest t
        → IsGuarded risk latest (check_limits t opp risk now today).0
    unfolding check_limits
    check_limits-IsGuarded t opp now today h g = elim (Option-cases (pass_breaker t now)) [
      | inl e ↦ ground arith
      | inr (t', e) ↦
          let passed : IsGuarded risk latest t' = pass_breaker-IsGuarded t t' now e g in
          let rolled : IsGuarded risk latest (roll_date t' today) =
            roll_date-IsGuarded t' today passed in
          ground (arith, apply_limits-IsGuarded (roll_date t' today) opp now h rolled)
    ]

    step-IsGuarded :
        (t : RiskTracker F) (c : ℕ × Call F)
        → c.0 ≤ latest
        → IsGuarded risk latest t
        → IsGuarded risk latest (step risk t c)
    unfolding step record_submitted record_confirmation count_confirmation add_pnl
    step-IsGuarded t (now, checked opp today) h g = check_limits-IsGuarded t opp now today h g
    step-IsGuarded t (now, submitted) h g = ground arith
    step-IsGuarded t (now, confirmed pnl true) h g =
        check_circuit_breaker-IsGuarded _ now h g.blocked_at
    step-IsGuarded t (now, confirmed pnl false) h g =
        check_circuit_breaker-IsGuarded _ now h g.blocked_at

    run-IsGuarded_from :
        (t : RiskTracker F) (cs : List (ℕ × Call F))
        → All (λ (c : ℕ × Call F). c.0 ≤ latest) cs
        → IsGuarded risk latest t
        → IsGuarded risk latest (run risk t cs)
    unfolding run
    run-IsGuarded_from t [] h g = g
    run-IsGuarded_from t (c ∷ cs) (h, hs) g =
        run-IsGuarded_from (step risk t c) cs hs (step-IsGuarded t c h g)

    -- After every history of checks, submissions and confirmations whose instants are at most the
    -- latest, from a new tracker, a day's result below the loss limit has tripped the breaker, and
    -- a tripped breaker has an instant up to the latest, if a result of zero is not below the
    -- limit.
    pub run-IsGuarded :
        (date : ℕ) (cs : List (ℕ × Call F))
        → All (λ (c : ℕ × Call F). c.0 ≤ latest) cs
        → IsGuarded risk latest (run risk (new date) cs)
    unfolding new
    run-IsGuarded date cs h = run-IsGuarded_from (new date) cs h (ground arith)

    -- After every history of calls whose instants are at most the latest, from a new tracker, a
    -- trade that is within the limits is admitted from 1800 seconds after the latest on, if a
    -- result of zero is not below the loss limit: no breaker blocks for ever.
    pub run-check_limits_recovers :
        (date : ℕ) (cs : List (ℕ × Call F)) (opp : Opportunity F) (now today : ℕ)
        → All (λ (c : ℕ × Call F). c.0 ≤ latest) cs
        → latest + breaker_cooldown_secs * 1_000_000_000 ≤ now
        → IsWithinLimits (pnl_today (run risk (new date) cs) today) opp risk
        → (check_limits (run risk (new date) cs) opp risk now today).1 ≡ true
    run-check_limits_recovers date cs opp now today h late good =
        (check_limits_iff _ opp risk now today).1
          (IsGuarded-MayTrade _ now (run-IsGuarded date cs h) late, good)
