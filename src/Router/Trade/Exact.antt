-- ===== src/Router/Trade/Exact.antt =====
-- The shared flow of the handlers (orchestrate.rs steps 6 to 10): when a trade completes.
use solana_atomic_arbitrage.Base.{
  ℕ, ◌+◌, ◌-◌, ◌≤◌, ◌<◌, ◌≡◌, ◌↔◌, ◌∙◌, sym, ap, refl, false, List, ltb, ◌==◌, ◌/=◌, arith,
}
use solana_atomic_arbitrage.Base.Checked.{checked_sub-le}
use solana_atomic_arbitrage.Router.Results.{ok-injective}
use solana_atomic_arbitrage.Router.Trade.{sol_balance, meme_balance, meme_received, settle, trade}
use solana_atomic_arbitrage.Router.Trade.Profit.{Completed, trade-Completed}
use solana_atomic_arbitrage.Router.Types.{AccountInfo, Result, ok, ◌>>=◌, fail_if, ok_or}

not_below : (n m : ℕ) → m ≤ n → ltb n m ≡ false
not_below n m h = ground arith

not_zero : (n : ℕ) → 0 < n → (n == 0) ≡ false
not_zero n h = ground arith

same_number : (n : ℕ) → (n /= n) ≡ false
same_number n = ground arith

sub_add : (n m : ℕ) → n + m - n ≡ m
sub_add n m = omega arith

settle-ok :
    (pre meme min_profit : ℕ) (accounts : List AccountInfo) (post : ℕ)
    → sol_balance accounts ≡ ok post
    → meme_balance accounts ≡ ok meme
    → pre + min_profit ≤ post
    → settle pre meme min_profit accounts ≡ ok accounts
unfolding settle ◌>>=◌ fail_if ok_or
settle-ok pre meme min_profit accounts post sol held gain =
    rw
      (
        sol,
        checked_sub-le post pre (omega arith),
        not_below (post - pre) min_profit (omega arith),
        held,
        same_number meme,
      )
      refl

meme_received-ok :
    (meme received : ℕ) (accounts : List AccountInfo)
    → meme_balance accounts ≡ ok (meme + received)
    → 0 < received
    → meme_received meme accounts ≡ ok received
unfolding meme_received ◌>>=◌ fail_if ok_or
meme_received-ok meme received accounts held positive =
    rw
      (
        held,
        checked_sub-le (meme + received) meme (omega arith),
        sub_add meme received,
        not_zero received positive,
      )
      refl

module _ (buy_leg : List AccountInfo → Result (List AccountInfo))
    (sell_leg : ℕ → List AccountInfo → Result (List AccountInfo)) (min_profit : ℕ)
    (accounts final : List AccountInfo) where
  Completed-trade :
      Completed buy_leg sell_leg min_profit accounts final
      → trade buy_leg sell_leg min_profit accounts ≡ ok final
  unfolding trade ◌>>=◌
  Completed-trade c =
      let p = c.profit in
      let meme_eq = ok-injective (sym p.meme_at_start ∙ c.read_before) in
      let held = p.meme_at_end ∙ ap ok meme_eq in
      rw
        (
          p.sol_at_start,
          c.read_before,
          c.buys,
          meme_received-ok c.meme_before c.received c.bought c.read_bought c.some_received,
          c.sells,
        )
        (settle-ok p.sol_before c.meme_before min_profit final p.sol_after p.sol_at_end held p.gain)

  -- A trade returns some accounts exactly when both legs succeed in turn, the sell leg with the
  -- whole of a positive received amount, and the final accounts are profitable with the meme
  -- balance restored.
  pub trade_iff_Completed :
      (trade buy_leg sell_leg min_profit accounts ≡ ok final)
      ↔ Completed buy_leg sell_leg min_profit accounts final
  trade_iff_Completed = (trade-Completed buy_leg sell_leg min_profit accounts, Completed-trade)
