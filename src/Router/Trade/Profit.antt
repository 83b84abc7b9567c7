-- ===== src/Router/Trade/Profit.antt =====
-- The shared flow of the handlers (orchestrate.rs steps 6 to 10): a completed trade, taken apart.
use solana_atomic_arbitrage.Base.{
  ℕ, ◌+◌, ◌≤◌, ◌<◌, ◌≡◌, ap, ◌∙◌, List, ltb, ltb→le, /=→eq, ◌==◌, ◌/=◌, arith, some,
}
use solana_atomic_arbitrage.Base.Checked.{checked_sub}
use solana_atomic_arbitrage.Router.Types.{AccountInfo, Result, ok, fail_if, ok_or}
use solana_atomic_arbitrage.Router.Results.{>>=-eq-ok, >>-eq-ok, fail_if-eq-ok, ok_or-eq-ok}
use solana_atomic_arbitrage.Router.Trade.{sol_balance, meme_balance, meme_received, settle, trade}

-- From the accounts `start` to the accounts `final`: the aggregate SOL balance has grown by
-- `min_profit` at least, and the meme balance is what it was.
pub record IsProfitable (min_profit : ℕ) (start final : List AccountInfo) : Type 0 where
  pub sol_before : ℕ
  pub sol_after : ℕ
  pub meme : ℕ
  pub sol_at_start : sol_balance start ≡ ok sol_before
  pub sol_at_end : sol_balance final ≡ ok sol_after
  pub meme_at_start : meme_balance start ≡ ok meme
  pub meme_at_end : meme_balance final ≡ ok meme
  pub gain : sol_before + min_profit ≤ sol_after

checked_sub-eq-some : (a b : ℕ) {c : ℕ} → checked_sub a b ≡ some c → a ≡ b + c
unfolding checked_sub
checked_sub-eq-some a b h = ground arith

-- A settlement that passes has found the profit and the meme balance.
pub settle-eq-ok :
    (pre meme min_profit : ℕ) (accounts : List AccountInfo) {final : List AccountInfo}
    → settle pre meme min_profit accounts ≡ ok final
    → (post : ℕ) × (accounts ≡ final)
      × (sol_balance final ≡ ok post)
      × (meme_balance final ≡ ok meme)
      × (pre + min_profit ≤ post)
unfolding settle
settle-eq-ok pre meme min_profit accounts h =
    let (post, sol, rest) = >>=-eq-ok (sol_balance accounts) _ h in
    let (net, sub, rest₁) = >>=-eq-ok (ok_or (checked_sub post pre) _) _ rest in
    let (enough, rest₂) = >>-eq-ok (fail_if (ltb net min_profit) _) _ rest₁ in
    let (after, kept, rest₃) = >>=-eq-ok (meme_balance accounts) _ rest₂ in
    let (same, done) = >>-eq-ok (fail_if (after /= meme) _) _ rest₃ in
    let grown = checked_sub-eq-some post pre (ok_or-eq-ok _ _ sub) in
    let profit = ltb→le net min_profit (fail_if-eq-ok _ _ enough) in
    let flat = /=→eq after meme (fail_if-eq-ok _ _ same) in (post, cc, cc, cc, omega arith)

-- A received amount is the growth of the meme balance, and it is positive.
pub meme_received-eq-ok :
    (meme : ℕ) (accounts : List AccountInfo) {received : ℕ}
    → meme_received meme accounts ≡ ok received
    → (meme_balance accounts ≡ ok (meme + received)) × (0 < received)
unfolding meme_received
meme_received-eq-ok meme accounts h =
    let (after, read, rest) = >>=-eq-ok (meme_balance accounts) _ h in
    let (net, sub, rest₁) = >>=-eq-ok (ok_or (checked_sub after meme) _) _ rest in
    let (positive, done) = >>-eq-ok (fail_if (net == 0) _) _ rest₁ in
    let grown = checked_sub-eq-some after meme (ok_or-eq-ok _ _ sub) in
    let nonzero = fail_if-eq-ok (net == 0) _ positive in (ground arith, ground arith)

module _ (buy_leg : List AccountInfo → Result (List AccountInfo))
    (sell_leg : ℕ → List AccountInfo → Result (List AccountInfo)) (min_profit : ℕ)
    (accounts : List AccountInfo) where
  -- A completed trade has bought, has sold exactly what it received, and is profitable.
  pub record Completed (final : List AccountInfo) : Type 0 where
    pub bought : List AccountInfo
    pub received : ℕ
    pub meme_before : ℕ
    pub buys : buy_leg accounts ≡ ok bought
    pub read_before : meme_balance accounts ≡ ok meme_before
    pub read_bought : meme_balance bought ≡ ok (meme_before + received)
    pub some_received : 0 < received
    pub sells : sell_leg received bought ≡ ok final
    pub profit : IsProfitable min_profit accounts final

  pub trade-Completed :
      {final : List AccountInfo}
      → trade buy_leg sell_leg min_profit accounts ≡ ok final
      → Completed final
  unfolding trade
  trade-Completed h =
      let (pre, sol, rest) = >>=-eq-ok (sol_balance accounts) _ h in
      let (meme, held, rest₁) = >>=-eq-ok (meme_balance accounts) _ rest in
      let (bought, buys, rest₂) = >>=-eq-ok (buy_leg accounts) _ rest₁ in
      let (received, got, rest₃) = >>=-eq-ok (meme_received meme bought) _ rest₂ in
      let (sold, sells, settled) = >>=-eq-ok (sell_leg received bought) _ rest₃ in
      let (post, same, sol', held', gain) = settle-eq-ok pre meme min_profit sold settled in
      let (grown, positive) = meme_received-eq-ok meme bought got in
      record {
        bought = bought;
        received = received;
        meme_before = meme;
        buys = buys;
        read_before = held;
        read_bought = grown;
        some_received = positive;
        sells = sells ∙ ap ok same;
        profit = record {
          sol_before = pre;
          sol_after = post;
          meme = meme;
          sol_at_start = sol;
          sol_at_end = sol';
          meme_at_start = held;
          meme_at_end = held';
          gain = gain;
        };
      }
