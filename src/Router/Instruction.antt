-- ===== src/Router/Instruction.antt =====
-- The 36 bytes of instruction data that the three handlers parse (constants.rs, the `OFF_*`
-- offsets; the first section of each `handle`).
use solana_atomic_arbitrage.Base.{
  ap, sym, ◌∙◌, ℕ, ◌≤◌, ◌<◌, ◌≡◌, Bool, List, length, get_elem?, get_elem?-lt, ◌/=◌, ◌==◌, /=→eq,
  ◌||◌, some, none, arith,
}
use solana_atomic_arbitrage.Router.Constants
use solana_atomic_arbitrage.Router.Error.{arb_err, arb_zero_amount}
use solana_atomic_arbitrage.Router.Slices.{u64_at, u64_at-Safe, u64_at-eq-ok, read_u64}
use solana_atomic_arbitrage.Router.Types.{
  Result, ok, panic, ◌>>=◌, ◌>>◌, fail_if, invalid_instruction_data,
}
use solana_atomic_arbitrage.Router.Results.{
  Safe, safe_ok, >>=-Safe, >>-Safe, fail_if-Safe, >>-eq-ok, >>=-eq-ok, fail_if-eq-ok, ok-injective,
}

-- The parsed fields; the last two are the two remaining counts at offsets 34 and 35.
pub record RouteArgs : Type 0 where
  pub amount_in : ℕ
  pub min_profit : ℕ
  pub min_intermediate : ℕ
  pub track_volume : Bool
  pub sol_is_x : Bool
  pub first_count : ℕ
  pub second_count : ℕ

-- `data[i]`
abbrev pub read_byte : List ℕ → ℕ → Result ℕ
read_byte bytes i = elim (get_elem? bytes i) [ some b ↦ ok b | none ↦ panic ]

unfoldable pub read_args : List ℕ → Result RouteArgs
read_args bytes = do
  amount_in ← u64_at bytes Constants.off_amount_in
  min_profit ← u64_at bytes Constants.off_min_profit
  min_intermediate ← u64_at bytes Constants.off_min_intermediate
  track ← read_byte bytes Constants.off_track_volume
  sol_x ← read_byte bytes Constants.off_dlmm_sol_is_x
  first ← read_byte bytes Constants.off_buy_remaining
  second ← read_byte bytes Constants.off_sell_remaining
  ok (record {
    amount_in = amount_in;
    min_profit = min_profit;
    min_intermediate = min_intermediate;
    track_volume = track /= 0;
    sol_is_x = sol_x /= 0;
    first_count = first;
    second_count = second;
  })

-- The length check, the fields, and the test for zero amounts.
unfoldable pub parse_args : List ℕ → Result RouteArgs
parse_args bytes = do
  fail_if (length bytes /= Constants.ix_data_len) invalid_instruction_data
  args ← read_args bytes
  fail_if (args.amount_in == 0 || args.min_profit == 0) (arb_err arb_zero_amount)
  ok args

read_byte-Safe : (bytes : List ℕ) (i : ℕ) → i < length bytes → Safe (read_byte bytes i)
read_byte-Safe bytes i h = let (b, e) = get_elem?-lt bytes i h in rw (e, read_byte) (safe_ok b)

read_args-Safe : (bytes : List ℕ) → 36 ≤ length bytes → Safe (read_args bytes)
unfolding read_args
read_args-Safe bytes h = >>=-Safe (u64_at-Safe bytes _ (omega arith)) λ amount_in _.
    >>=-Safe (u64_at-Safe bytes _ (omega arith)) λ min_profit _.
      >>=-Safe (u64_at-Safe bytes _ (omega arith)) λ min_intermediate _.
        >>=-Safe (read_byte-Safe bytes _ (omega arith)) λ track _.
          >>=-Safe (read_byte-Safe bytes _ (omega arith)) λ sol_x _.
            >>=-Safe (read_byte-Safe bytes _ (omega arith))
              λ first _. >>=-Safe (read_byte-Safe bytes _ (omega arith)) λ second _. safe_ok _

exact :
    (bytes : List ℕ) {u : Unit {0}}
    → fail_if (length bytes /= 36) invalid_instruction_data ≡ ok u
    → 36 ≤ length bytes
exact bytes h = omega (arith, /=→eq (length bytes) 36 (fail_if-eq-ok _ invalid_instruction_data h))

-- The exact length makes every read of the data an index in range.
pub parse_args-Safe : (bytes : List ℕ) → Safe (parse_args bytes)
unfolding parse_args
parse_args-Safe bytes =
    >>=-Safe {m = fail_if (length bytes /= 36) invalid_instruction_data} (fail_if-Safe _ _)
      λ _ sized.
        >>=-Safe (read_args-Safe bytes (exact bytes sized))
          λ args _. >>-Safe (fail_if-Safe _ _) (safe_ok _)

-- What a successful parse has read.
read_args-fields :
    (bytes : List ℕ) {args : RouteArgs}
    → read_args bytes ≡ ok args
    → (args.amount_in ≡ read_u64 bytes 8)
      × (args.min_profit ≡ read_u64 bytes 16)
      × (args.min_intermediate ≡ read_u64 bytes 24)
unfolding read_args
read_args-fields bytes {args} h =
    let (_, a, h₁) = >>=-eq-ok (u64_at bytes Constants.off_amount_in) _ h in
    let (_, p, h₂) = >>=-eq-ok (u64_at bytes Constants.off_min_profit) _ h₁ in
    let (_, m, h₃) = >>=-eq-ok (u64_at bytes Constants.off_min_intermediate) _ h₂ in
    let (_, _, h₄) = >>=-eq-ok (read_byte bytes Constants.off_track_volume) _ h₃ in
    let (_, _, h₅) = >>=-eq-ok (read_byte bytes Constants.off_dlmm_sol_is_x) _ h₄ in
    let (_, _, h₆) = >>=-eq-ok (read_byte bytes Constants.off_buy_remaining) _ h₅ in
    let (_, _, h₇) = >>=-eq-ok (read_byte bytes Constants.off_sell_remaining) _ h₆ in
    let made = sym (ok-injective h₇) in
    (
      ap (λ (r : RouteArgs). r.amount_in) made ∙ u64_at-eq-ok bytes 8 a,
      ap (λ (r : RouteArgs). r.min_profit) made ∙ u64_at-eq-ok bytes 16 p,
      ap (λ (r : RouteArgs). r.min_intermediate) made ∙ u64_at-eq-ok bytes 24 m,
    )

pub parse_args-eq-ok :
    (bytes : List ℕ) {args : RouteArgs}
    → parse_args bytes ≡ ok args
    → (args.min_profit ≡ read_u64 bytes 16)
      × (args.amount_in ≡ read_u64 bytes 8)
      × (0 < args.amount_in)
      × (0 < args.min_profit)
unfolding parse_args
parse_args-eq-ok bytes h =
    let (_, rest) = >>-eq-ok (fail_if (length bytes /= 36) _) _ h in
    let (args, read, checked) = >>=-eq-ok (read_args bytes) _ rest in
    let (passed, same) = >>-eq-ok (fail_if _ _) _ checked in
    let nonzero = fail_if-eq-ok (args.amount_in == 0 || args.min_profit == 0) _ passed in
    ground (arith, read_args-fields bytes read)
