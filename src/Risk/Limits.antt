-- ===== src/Risk/Limits.antt =====
-- src/risk/mod.rs, `check_limits`: what an accepted opportunity satisfies.
use solana_atomic_arbitrage.Base.{
  ℕ, ◌≤◌, ◌<◌, ◌≡◌, ◌↔◌, ◌⊎◌, true, false, some, ◌/=◌, ◌||◌, if◌then◌else◌, arith,
}
use solana_atomic_arbitrage.Base.Float.{Float}
use solana_atomic_arbitrage.Risk.{
  RiskTracker, Opportunity, RiskConfig, breaker_cooldown_secs, elapsed_secs, check_limits,
  pass_breaker, clear_breaker, roll_date, apply_limits,
}

module _ {ℓ} {F : Type ℓ} ⦃f : Float F⦄ where
  -- The breaker is off, or its cooldown is over.
  abbrev pub MayTrade : RiskTracker F → ℕ → Type 0
  MayTrade t now =
      (t.circuit_breaker ≡ false)
      ⊎ ((triggered : ℕ) × (t.breaker_triggered_at ≡ some triggered)
          × (breaker_cooldown_secs ≤ elapsed_secs now triggered))

  -- The result of the day that a new trade is added to: a cooldown and a new date start it again.
  abbrev pub pnl_today : RiskTracker F → ℕ → F
  pnl_today t today =
      if t.circuit_breaker || (today /= t.current_date) then f.zero_f64 else t.daily_pnl_sol

  -- The limits of the configuration, against a result of the day.
  pub record IsWithinLimits (pnl : F) (opp : Opportunity F) (risk : RiskConfig F) : Type 0 where
    pub profitable : f.lt opp.net_profit_sol risk.min_profit_threshold_sol ≡ false
    pub affordable : f.lt risk.max_single_investment_sol opp.investment_sol ≡ false
    pub bearable : f.lt (f.add pnl opp.net_profit_sol) (f.neg risk.max_daily_loss_sol) ≡ false

  module _ (t : RiskTracker F) (opp : Opportunity F) (risk : RiskConfig F) (now today : ℕ) where
    check_limits-accepts :
        MayTrade t now × IsWithinLimits (pnl_today t today) opp risk
        → (check_limits t opp risk now today).1 ≡ true
    unfolding check_limits pass_breaker clear_breaker roll_date apply_limits
    check_limits-accepts h = ground arith

    check_limits-accepted :
        (check_limits t opp risk now today).1 ≡ true
        → MayTrade t now × IsWithinLimits (pnl_today t today) opp risk
    unfolding check_limits pass_breaker clear_breaker roll_date apply_limits
    check_limits-accepted h = grind arith

    -- The tracker admits a trade exactly when no breaker blocks it (it is off, or was triggered
    -- 1800 seconds ago or more) and the profit, the investment and the projected result of the
    -- day, which a cooldown or a new date starts again, are within the limits.
    pub check_limits_iff :
        ((check_limits t opp risk now today).1 ≡ true)
        ↔ (MayTrade t now × IsWithinLimits (pnl_today t today) opp risk)
    check_limits_iff = (check_limits-accepted, check_limits-accepts)

    -- Within the cooldown a check refuses the trade and changes nothing.
    pub check_limits-blocks :
        (triggered : ℕ)
        → t.circuit_breaker ≡ true
        → t.breaker_triggered_at ≡ some triggered
        → elapsed_secs now triggered < breaker_cooldown_secs
        → check_limits t opp risk now today ≡ (t, false)
    unfolding check_limits pass_breaker
    check_limits-blocks triggered on at young = ground arith
