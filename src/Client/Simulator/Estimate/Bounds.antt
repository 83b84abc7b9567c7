-- ===== src/Client/Simulator/Estimate/Bounds.antt =====
-- src/simulator/dlmm/mod.rs: the amounts of the client's walk, beside the router's walk over the same
-- bins (programs/arbitrage/src/pricing/dlmm.rs).
use solana_atomic_arbitrage.Base.{
  ℕ, ◌+◌, ◌-◌, ◌*◌, ◌/◌, ◌≤◌, ◌<◌, ◌≡◌, ◌∙◌, ap, refl, Bool, true, false, ◌||◌, Bool-cases, inl,
  inr, List, [], ◌∷◌, All, leb, ◌==◌, leb→le, if◌then◌else◌, arith, length,
}
use solana_atomic_arbitrage.Base.Checked.{u64_mod, u128_mod, mul-lt_u128}
use solana_atomic_arbitrage.Client.Simulator.Estimate.{
  Walked, side_in, side_out, count_bin, pay, walk,
}
use solana_atomic_arbitrage.PoolCache.Dlmm.{DlmmBin}
use solana_atomic_arbitrage.PoolCache.Dlmm.Agreement.{oriented}
use solana_atomic_arbitrage.Router.Pricing.Dlmm as Pricing
use solana_atomic_arbitrage.Router.Pricing.Dlmm.{Bin}
use solana_atomic_arbitrage.Router.Types.{ok}
use solana_atomic_arbitrage.Router.Pricing.Dlmm.Walk.{walk_output, walk-exact, FitsBin}
use native.Mathlib.Nat.{mul-div-le, mod-eq_of_lt, le-div_iff_mul-le, div-mul-le_self}

-- Amounts of 64 bits.
pub record Fits64 (b : DlmmBin) : Type 0 where
  pub x_lt : b.amount_x < u64_mod
  pub y_lt : b.amount_y < u64_mod

-- A bin with nothing on one side, which the loop skips.
abbrev pub one_sided : Bool → DlmmBin → Bool
one_sided d b = (side_in d b == 0) || (side_out d b == 0)

-- The output on numbers without bound.
unfoldable pub plain_output : Bool → ℕ → List DlmmBin → ℕ
plain_output d remaining [] = 0
plain_output d remaining (b ∷ bs) =
    let skipped = plain_output d remaining bs in
    let exhausted = side_out d b + plain_output d (remaining - side_in d b) bs in
    if one_sided d b
    then skipped
    else if leb remaining (side_in d b)
    then side_out d b * remaining / side_in d b
    else exhausted

unfoldable pub reserves_out : Bool → List DlmmBin → ℕ
reserves_out d [] = 0
reserves_out d (b ∷ bs) = side_out d b + reserves_out d bs

quotient-le : (ro r ri q : ℕ) → 0 < ri → r ≤ ri → ri * q ≤ ro * r → q ≤ ro
quotient-le ro r ri q p h e = grind arith

partial-le : (ro r ri : ℕ) → 0 < ri → r ≤ ri → ro * r / ri ≤ ro
partial-le ro r ri p h = quotient-le ro r ri (ro * r / ri) p h (mul-div-le (ro * r) ri)

two_sided :
    (d : Bool) (b : DlmmBin) → one_sided d b ≡ false → (0 < side_in d b) × (0 < side_out d b)
two_sided d b h = nonzero (side_in d b) (side_out d b) h
  where
    nonzero : (m n : ℕ) → ((m == 0) || (n == 0)) ≡ false → (0 < m) × (0 < n)
    nonzero m n h = (ground arith, ground arith)

side-lt : (d : Bool) (b : DlmmBin) → Fits64 b → (side_in d b < u64_mod) × (side_out d b < u64_mod)
side-lt true b f = (f.x_lt, f.y_lt)
side-lt false b f = (f.y_lt, f.x_lt)

plain_output-le :
    (d : Bool) (remaining : ℕ) (bs : List DlmmBin) → plain_output d remaining bs ≤ reserves_out d bs
unfolding plain_output reserves_out
plain_output-le d remaining [] = omega arith
plain_output-le d remaining (b ∷ bs) = elim (Bool-cases (one_sided d b)) [
  | inl t ↦ rw t (omega (arith, plain_output-le d remaining bs))
  | inr f ↦ rw f (elim (Bool-cases (leb remaining (side_in d b))) [
    | inl t ↦ rw t (
        omega (
          arith,
          partial-le (side_out d b) remaining (side_in d b) (two_sided d b f).0 (leb→le _ _ t),
        ))
    | inr t ↦ rw t (omega (arith, plain_output-le d (remaining - side_in d b) bs))
  ])
]

-- What one walk does to the total, when the sum has room.
pay-total :
    (amount : ℕ) (w : Walked)
    → w.total_out + amount < u128_mod
    → (pay amount w).total_out ≡ w.total_out + amount
unfolding pay
pay-total amount w h = mod-eq_of_lt h

count_bin-total : (d : Bool) (b : DlmmBin) (w : Walked) → (count_bin d b w).total_out ≡ w.total_out
unfolding count_bin
count_bin-total d b w = refl

-- The state after a bin that pays an amount.
paid-total :
    (d : Bool) (b : DlmmBin) (amount : ℕ) (w : Walked)
    → w.total_out + amount < u128_mod
    → (pay amount (count_bin d b w)).total_out ≡ w.total_out + amount
paid-total d b amount w h =
    let kept = count_bin-total d b w in
    pay-total amount (count_bin d b w) (omega arith) ∙ ap (λ n. n + amount) kept

walk-total :
    (d : Bool) (remaining : ℕ) (w : Walked) (bs : List DlmmBin)
    → All Fits64 bs
    → w.total_out + reserves_out d bs < u128_mod
    → (walk d remaining w bs).total_out ≡ w.total_out + plain_output d remaining bs
unfolding walk plain_output reserves_out
walk-total d remaining w [] fits room = omega arith
walk-total d remaining w (b ∷ bs) (f, fs) room = elim (Bool-cases (one_sided d b)) [
  | inl t ↦ rw t (walk-total d remaining w bs fs (omega arith))
  | inr two ↦ rw two (elim (Bool-cases (leb remaining (side_in d b))) [
    | inl t ↦
        let (pi, po) = two_sided d b two in
        let (li, lo) = side-lt d b f in
        let within = leb→le remaining (side_in d b) t in
        let whole = mod-eq_of_lt (mul-lt_u128 (side_out d b) remaining lo (omega arith)) in
        let bounded = partial-le (side_out d b) remaining (side_in d b) pi within in
        rw t (rw whole (paid-total d b (side_out d b * remaining / side_in d b) w (omega arith)))
    | inr t ↦
        let w' = pay (side_out d b) (count_bin d b w) in
        let paid = paid-total d b (side_out d b) w (omega arith) in
        rw t (walk-total d (remaining - side_in d b) w' bs fs (omega arith) ∙ omega arith)
  ])
]

-- The router's quote for a bin is at most the client's.
bin_output-le-partial : (ri ro r : ℕ) → 0 < ri → ro * r / (ri + r) ≤ ro * r / ri
bin_output-le-partial ri ro r h =
    (le-div_iff_mul-le h).1 (smaller (ro * r / (ri + r)) (div-mul-le_self (ro * r) (ri + r)))
  where
    smaller : (q : ℕ) → q * (ri + r) ≤ ro * r → q * ri ≤ ro * r
    smaller q e = grind arith

-- The bin of the router for a bin with something on both sides.
abbrev turned : Bool → DlmmBin → Bin
turned d b = record { bin_id = b.bin_id; reserve_in = side_in d b; reserve_out = side_out d b }

oriented-two_sided :
    (d : Bool) (b : DlmmBin) (bs : List DlmmBin)
    → one_sided d b ≡ false
    → oriented d (b ∷ bs) ≡ turned d b ∷ oriented d bs
oriented-two_sided true b bs h = ground arith
oriented-two_sided false b bs h = ground arith

oriented-one_sided :
    (d : Bool) (b : DlmmBin) (bs : List DlmmBin)
    → one_sided d b ≡ true
    → oriented d (b ∷ bs) ≡ oriented d bs
oriented-one_sided true b bs h = ground arith
oriented-one_sided false b bs h = ground arith

walk_output-le-plain_output :
    (d : Bool) (remaining : ℕ) (bs : List DlmmBin)
    → walk_output remaining (oriented d bs) ≤ plain_output d remaining bs
unfolding walk_output plain_output
walk_output-le-plain_output d remaining [] = omega arith
walk_output-le-plain_output d remaining (b ∷ bs) = elim (Bool-cases (one_sided d b)) [
  | inl t ↦ rw (oriented-one_sided d b bs t) (rw t (walk_output-le-plain_output d remaining bs))
  | inr two ↦
      let (pi, po) = two_sided d b two in
      rw (oriented-two_sided d b bs two) (
        rw two (elim (Bool-cases (leb remaining (side_in d b))) [
          | inl t ↦ rw t (bin_output-le-partial (side_in d b) (side_out d b) remaining pi)
          | inr t ↦
              let below = bin_output-le-partial (side_in d b) (side_out d b) (side_in d b) pi in
              let whole = partial-le (side_out d b) (side_in d b) (side_in d b) pi (omega arith) in
              let others = walk_output-le-plain_output d (remaining - side_in d b) bs in
              rw t (omega arith)
        ]))
]

oriented-FitsBin : (d : Bool) (bs : List DlmmBin) → All Fits64 bs → All FitsBin (oriented d bs)
oriented-FitsBin d [] fits = tt
oriented-FitsBin d (b ∷ bs) (f, fs) = elim (Bool-cases (one_sided d b)) [
  | inl t ↦ rw (oriented-one_sided d b bs t) (oriented-FitsBin d bs fs)
  | inr two ↦
      let (pi, po) = two_sided d b two in
      let (li, lo) = side-lt d b f in
      rw (oriented-two_sided d b bs two)
        (record { in_pos = pi; in_lt = li; out_lt = lo }, oriented-FitsBin d bs fs)
]

length-oriented : (d : Bool) (bs : List DlmmBin) → length (oriented d bs) ≤ length bs
length-oriented d [] = omega arith
length-oriented d (b ∷ bs) = elim (Bool-cases (one_sided d b)) [
  | inl t ↦ rw (oriented-one_sided d b bs t) (omega (arith, length-oriented d bs))
  | inr two ↦ rw (oriented-two_sided d b bs two) (omega (arith, length-oriented d bs))
]

reserves_out-le :
    (d : Bool) (bs : List DlmmBin) → All Fits64 bs → reserves_out d bs ≤ length bs * u64_mod
unfolding reserves_out
reserves_out-le d [] fits = omega arith
reserves_out-le d (b ∷ bs) (f, fs) = omega (arith, (side-lt d b f).1, reserves_out-le d bs fs)

-- On 64-bit bins, fewer than 2 ^ 64 of them, the router's walk over them, turned to the direction
-- of the swap and without those that lack a side, does not fail, and its output is at most that of
-- the client's walk.
pub walk-le-walk :
    (d : Bool) (remaining : ℕ) (bs : List DlmmBin)
    → All Fits64 bs
    → length bs < u64_mod
    → (out : ℕ) × (Pricing.walk remaining 0 (oriented d bs) ≡ ok out)
      × (out
          ≤ (walk d remaining
              (record { total_out = 0; bins_consumed = 0; consumed_bins = [] })
              bs).total_out)
walk-le-walk d remaining bs fits few =
    let start : Walked = record { total_out = 0; bins_consumed = 0; consumed_bins = [] } in
    let shorter = length-oriented d bs in
    let reserves = reserves_out-le d bs fits in
    let exact = walk-exact (oriented d bs) remaining 0 (oriented-FitsBin d bs fits) (omega arith) in
    (
      0 + walk_output remaining (oriented d bs),
      exact.0,
      omega (
        arith,
        walk-total d remaining start bs fits (omega arith),
        walk_output-le-plain_output d remaining bs,
      ),
    )
