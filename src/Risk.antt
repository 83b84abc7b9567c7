-- ===== src/Risk.antt =====
-- src/risk/mod.rs: the risk tracker. Its clock is an argument of each call: `now` is the instant in
-- nanoseconds, `today` the date as a day number; one call reads one instant. The text of a breaker
-- reason is the values that it is formatted from.
pub mod Limits
pub mod Breaker
pub mod Counters
use solana_atomic_arbitrage.Base.{
  ℕ, ◌+◌, ◌-◌, ◌/◌, ◌%◌, Bool, true, false, Option, none, some, leb, ◌/=◌, if◌then◌else◌,
}
use solana_atomic_arbitrage.Base.Checked.{u64_mod}
use solana_atomic_arbitrage.Base.Float.{Float}

abbrev pub breaker_cooldown_secs : ℕ
breaker_cooldown_secs = 1800

-- `triggered.elapsed().as_secs()`: an instant in the future counts as now.
abbrev pub elapsed_secs : ℕ → ℕ → ℕ
elapsed_secs now triggered = (now - triggered) / 1_000_000_000

pub data BreakerReason {ℓ} (F : Type ℓ) : Type ℓ where
  limit_exceeded : F → BreakerReason F
  limit_exceeded_after_trade : F → F → BreakerReason F

pub record RiskTracker {ℓ} (F : Type ℓ) : Type ℓ where
  pub current_date : ℕ
  pub daily_pnl_sol : F
  pub trades_attempted : ℕ
  pub trades_pending : ℕ
  pub trades_succeeded : ℕ
  pub trades_failed_onchain : ℕ
  pub total_net_profit_sol : F
  pub cumulative_failed_fee_sol : F
  pub circuit_breaker : Bool
  pub breaker_reason : Option (BreakerReason F)
  pub breaker_triggered_at : Option ℕ

-- The fields of `ArbitrageOpportunity` that the tracker reads.
pub record Opportunity {ℓ} (F : Type ℓ) : Type ℓ where
  pub investment_sol : F
  pub net_profit_sol : F

-- The fields of `RiskConfig` that the tracker reads.
pub record RiskConfig {ℓ} (F : Type ℓ) : Type ℓ where
  pub min_profit_threshold_sol : F
  pub max_single_investment_sol : F
  pub max_daily_loss_sol : F

module _ {ℓ} {F : Type ℓ} ⦃f : Float F⦄ where
  unfoldable pub new : ℕ → RiskTracker F
  new today = record {
    current_date = today;
    daily_pnl_sol = f.zero_f64;
    trades_attempted = 0;
    trades_pending = 0;
    trades_succeeded = 0;
    trades_failed_onchain = 0;
    total_net_profit_sol = f.zero_f64;
    cumulative_failed_fee_sol = f.zero_f64;
    circuit_breaker = false;
    breaker_reason = none;
    breaker_triggered_at = none;
  }

  -- The block of `check_limits` that clears the breaker.
  unfoldable pub clear_breaker : RiskTracker F → RiskTracker F
  clear_breaker t = record t {
    circuit_breaker = false;
    breaker_reason = none;
    breaker_triggered_at = none;
    daily_pnl_sol = f.zero_f64;
  }

  -- The first block of `check_limits`: `none` is its early `return false`.
  unfoldable pub pass_breaker : RiskTracker F → ℕ → Option (RiskTracker F)
  pass_breaker t now =
      if t.circuit_breaker
      then elim t.breaker_triggered_at [
        | none ↦ none
        | some triggered ↦
            if leb breaker_cooldown_secs (elapsed_secs now triggered)
            then some (clear_breaker t)
            else none
      ]
      else some t

  -- The block that starts a new day.
  unfoldable pub roll_date : RiskTracker F → ℕ → RiskTracker F
  roll_date t today =
      if today /= t.current_date
      then record t {
        current_date = today;
        daily_pnl_sol = f.zero_f64;
        trades_attempted = 0;
        trades_pending = 0;
        trades_succeeded = 0;
        trades_failed_onchain = 0;
        cumulative_failed_fee_sol = f.zero_f64;
      }
      else t

  -- The block that trips the breaker before a trade.
  unfoldable pub trip_projected : RiskTracker F → RiskConfig F → ℕ → RiskTracker F
  trip_projected t risk now = record t {
    circuit_breaker = true;
    breaker_triggered_at = some now;
    breaker_reason = some (limit_exceeded risk.max_daily_loss_sol);
  }

  -- The three limits, in the order of the code.
  unfoldable pub apply_limits :
      RiskTracker F → Opportunity F → RiskConfig F → ℕ → RiskTracker F × Bool
  apply_limits t opp risk now =
      if f.lt opp.net_profit_sol risk.min_profit_threshold_sol
      then (t, false)
      else if f.lt risk.max_single_investment_sol opp.investment_sol
      then (t, false)
      else if f.lt (f.add t.daily_pnl_sol opp.net_profit_sol) (f.neg risk.max_daily_loss_sol)
      then (trip_projected t risk now, false)
      else (t, true)

  unfoldable pub check_limits :
      RiskTracker F → Opportunity F → RiskConfig F → ℕ → ℕ → RiskTracker F × Bool
  check_limits t opp risk now today = elim (pass_breaker t now) [
    | none ↦ (t, false)
    | some t' ↦ apply_limits (roll_date t' today) opp risk now
  ]

  unfoldable pub record_submitted : RiskTracker F → RiskTracker F
  record_submitted t = record t {
    trades_attempted = (t.trades_attempted + 1) % u64_mod;
    trades_pending = (t.trades_pending + 1) % u64_mod;
  }

  unfoldable pub check_circuit_breaker : RiskTracker F → RiskConfig F → ℕ → RiskTracker F
  check_circuit_breaker t risk now =
      if f.lt t.daily_pnl_sol (f.neg risk.max_daily_loss_sol)
      then record t {
        circuit_breaker = true;
        breaker_triggered_at = some now;
        breaker_reason = some (limit_exceeded_after_trade t.daily_pnl_sol risk.max_daily_loss_sol);
      }
      else t

  -- The counters of `record_confirmation`; `saturating_sub` is the subtraction of ℕ.
  unfoldable pub count_confirmation : RiskTracker F → F → Bool → RiskTracker F
  count_confirmation t actual_pnl_sol succeeded =
      if succeeded
      then record t {
        trades_pending = t.trades_pending - 1;
        trades_succeeded = (t.trades_succeeded + 1) % u64_mod;
      }
      else record t {
        trades_pending = t.trades_pending - 1;
        trades_failed_onchain = (t.trades_failed_onchain + 1) % u64_mod;
        cumulative_failed_fee_sol =
            f.add t.cumulative_failed_fee_sol (f.max (f.neg actual_pnl_sol) f.zero_f64);
      }

  unfoldable pub add_pnl : RiskTracker F → F → RiskTracker F
  add_pnl t actual_pnl_sol = record t {
    daily_pnl_sol = f.add t.daily_pnl_sol actual_pnl_sol;
    total_net_profit_sol = f.add t.total_net_profit_sol actual_pnl_sol;
  }

  unfoldable pub record_confirmation : RiskTracker F → F → Bool → RiskConfig F → ℕ → RiskTracker F
  record_confirmation t actual_pnl_sol succeeded risk now =
      check_circuit_breaker (add_pnl (count_confirmation t actual_pnl_sol succeeded) actual_pnl_sol)
        risk now

  unfoldable pub is_blocked : RiskTracker F → Bool
  is_blocked t = t.circuit_breaker
