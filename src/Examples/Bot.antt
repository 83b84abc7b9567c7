-- ===== src/Examples/Bot.antt =====
-- The risk tracker, the RPC pool and the nonce cache at concrete inputs. Amounts are whole numbers.
use solana_atomic_arbitrage.Base.{
  ◌⊎◌, ℕ, ◌<◌, ◌≤◌, ◌≡◌, ◌↔◌, refl, Bool, true, false, not, List, [], ◌∷◌, All, some, none,
  replicate, arith, if◌then◌else◌, ◌==◌,
}
use solana_atomic_arbitrage.Base.Float.{Float}
use solana_atomic_arbitrage.Base.Int.{ℤ, pos, negsuc, sub_ℕ, pos_part, neg_part, leb_ℤ}
use solana_atomic_arbitrage.Executor.Nonce.{
  Rpc, parse, NonceData, cached_nonce_data, fetch_nonce_data,
}
use solana_atomic_arbitrage.Executor.Nonce.Cache.{
  NonceCall, look_up, invalidate, cache_after, AnsweredSince, cached_nonce_data-AnsweredSince,
}
use solana_atomic_arbitrage.Executor.Nonce.Layout.{account_bytes, parse-account_bytes}
use solana_atomic_arbitrage.Executor.RpcPool.{RpcPool, current, rotate}
use solana_atomic_arbitrage.Executor.RpcPool.Fairness.{
  after, current-reaches, current-rotate_of_three,
}
use solana_atomic_arbitrage.Base.Int.{add_ℤ}
use solana_atomic_arbitrage.Risk.{
  Opportunity, RiskConfig, new, check_limits, pass_breaker, clear_breaker, roll_date, apply_limits,
  trip_projected, record_submitted, record_confirmation, check_circuit_breaker, count_confirmation,
  add_pnl,
}
use solana_atomic_arbitrage.Risk.Limits.{MayTrade, IsWithinLimits, pnl_today, check_limits_iff}
use solana_atomic_arbitrage.Risk.Breaker.{
  Call, checked, submitted, confirmed, step, run, IsGuarded, run-IsGuarded,
  run-check_limits_recovers,
}
use solana_atomic_arbitrage.Risk.Counters.{IsCounted, orphans, run-IsCounted}

abbrev less : ℤ → ℤ → Bool
less a b = not (leb_ℤ b a)

instance abbrev whole_numbers : Float ℤ
whole_numbers = record {
  zero_f64 = pos 0;
  add = add_ℤ;
  neg = λ a. sub_ℕ (neg_part a) (pos_part a);
  max = λ a b. if less a b then b else a;
  lt = less;
}

-- A profit of 1 at least, 100 in a trade at most, a loss of 50 in a day at most.
abbrev limits : RiskConfig ℤ
limits = record {
  min_profit_threshold_sol = pos 1;
  max_single_investment_sol = pos 100;
  max_daily_loss_sol = pos 50;
}

abbrev good : Opportunity ℤ
good = record { investment_sol = pos 80; net_profit_sol = pos 3 }

check_limits_iff_example :
    ((check_limits (new 7) good limits 1000 7).1 ≡ true)
    ↔ (MayTrade (new {F = ℤ} 7) 1000 × IsWithinLimits (pnl_today (new {F = ℤ} 7) 7) good limits)
check_limits_iff_example = check_limits_iff (new 7) good limits 1000 7

-- A trade loses 60, which trips the breaker at instant 3.
abbrev losing_day : List (ℕ × Call ℤ)
losing_day = (1, checked good 7) ∷ (2, submitted) ∷ (3, confirmed (negsuc 59) false) ∷ []

blocked : (check_limits (run limits (new 7) losing_day) good limits 4 7).1 ≡ false
unfolding run step new check_limits pass_breaker clear_breaker roll_date apply_limits trip_projected
    record_submitted record_confirmation check_circuit_breaker count_confirmation add_pnl
blocked = refl

losing_day-early : All (λ (c : ℕ × Call ℤ). c.0 ≤ 3) losing_day
losing_day-early = (omega arith, (omega arith, (omega arith, tt)))

run-IsGuarded_example : IsGuarded limits 3 (run limits (new 7) losing_day)
run-IsGuarded_example = run-IsGuarded limits 3 refl 7 losing_day losing_day-early

within : IsWithinLimits (pnl_today (run limits (new 7) losing_day) 7) good limits
unfolding run step new check_limits pass_breaker clear_breaker roll_date apply_limits trip_projected
    record_submitted record_confirmation check_circuit_breaker count_confirmation add_pnl
within = ground arith

run-check_limits_recovers_example :
    (check_limits (run limits (new 7) losing_day) good limits 1_800_000_000_003 7).1 ≡ true
run-check_limits_recovers_example =
    run-check_limits_recovers limits 3 refl 7 losing_day good 1_800_000_000_003 7 losing_day-early
      (omega arith) within

run-IsCounted_example :
    IsCounted 3 (orphans limits (new 7) losing_day 0) (run limits (new 7) losing_day)
run-IsCounted_example = run-IsCounted limits 7 losing_day (omega arith)

abbrev three_endpoints : RpcPool ℕ
three_endpoints = record { clients = 10 ∷ 20 ∷ 30 ∷ []; counter = 4 }

current-reaches_example : (n : ℕ) × (n < 3) × ((current (after n three_endpoints)).1 ≡ some 30)
current-reaches_example = current-reaches three_endpoints 2 30 (omega arith) refl

current-rotate_of_three_example :
    (current (rotate (current three_endpoints).0).0).1 ≡ (current three_endpoints).1
current-rotate_of_three_example =
    current-rotate_of_three three_endpoints 10 20 30 refl (omega arith)

abbrev hash_of : ℕ → List ℕ
hash_of n = replicate 32 n

abbrev nonce_bytes : ℕ → List ℕ
nonce_bytes n = account_bytes 1 1 77 (replicate 24 5) (hash_of n) (replicate 8 0)

parse-account_bytes_example :
    parse (nonce_bytes 9) ≡ some (record { blockhash = hash_of 9; nonce_value = 77 })
parse-account_bytes_example =
    parse-account_bytes 77 (replicate 24 5) (hash_of 9) (replicate 8 0) (omega arith) refl refl
      (omega arith)

-- Account 40 has the nonce `n`.
abbrev nonce_node : ℕ → Rpc
nonce_node n = λ key. if key == 40 then some (nonce_bytes n) else none

-- The newest first: nonce 9 was read, the cache was invalidated, nonce 10 was read, and then an
-- account that is missing.
abbrev nonce_calls : List NonceCall
nonce_calls =
    look_up (nonce_node 11) 41
    ∷ look_up (nonce_node 10) 40
    ∷ invalidate
    ∷ look_up (nonce_node 9) 40
    ∷ []

cached_nonce_data-AnsweredSince_example :
    (((cached_nonce_data (nonce_node 12) 40 (cache_after nonce_calls)).1
        ≡ fetch_nonce_data (nonce_node 12) 40)
      ⊎ ((nd : NonceData) × ((cached_nonce_data (nonce_node 12) 40 (cache_after nonce_calls)).1
            ≡ some nd)
          × AnsweredSince 40 nd nonce_calls))
    × (((cached_nonce_data (nonce_node 12) 40 (cache_after nonce_calls)).1 ≡ none)
        ⊎ ((cached_nonce_data
              (nonce_node 13)
              40
              (cache_after (look_up (nonce_node 12) 40 ∷ nonce_calls))).1
            ≡ (cached_nonce_data (nonce_node 12) 40 (cache_after nonce_calls)).1))
cached_nonce_data-AnsweredSince_example =
    cached_nonce_data-AnsweredSince nonce_calls (nonce_node 12) (nonce_node 13) 40
