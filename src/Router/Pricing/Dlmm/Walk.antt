-- ===== src/Router/Pricing/Dlmm/Walk.antt =====
-- pricing/dlmm.rs, the loop of `estimate_dlmm_swap_output` over the sorted bins.
use solana_atomic_arbitrage.Base.{
  ℕ, zero, suc, ◌+◌, ◌-◌, ◌*◌, ◌/◌, ◌≤◌, ◌<◌, ◌≡◌, ◌∙◌, ap, refl, Bool-cases, inl, inr, List, [],
  ◌∷◌, All, length, leb, leb→le, leb→lt, if◌then◌else◌, arith,
}
use solana_atomic_arbitrage.Base.Checked.{
  u64_mod, u128_mod, checked_add-fits, checked_mul-fits, checked_div-pos, checked_sub-le,
  mul-lt_u128,
}
use solana_atomic_arbitrage.Router.Pricing.Dlmm.{Bin, add_output, walk}
use solana_atomic_arbitrage.Router.Types.{ok, ◌>>=◌, ok_or}
use native.Mathlib.Nat.{mul-div-le, le_of_mul-le-mul_left}

-- Reserves of 64 bits that are not empty.
pub record FitsBin (b : Bin) : Type 0 where
  pub in_pos : 0 < b.reserve_in
  pub in_lt : b.reserve_in < u64_mod
  pub out_lt : b.reserve_out < u64_mod

-- The output of a bin, and of the bins in their order, on numbers without bound.
abbrev pub bin_output : Bin → ℕ → ℕ
bin_output b amount = b.reserve_out * amount / (b.reserve_in + amount)

unfoldable pub walk_output : ℕ → List Bin → ℕ
walk_output remaining [] = 0
walk_output remaining (b ∷ bs) =
    if leb remaining b.reserve_in
    then bin_output b remaining
    else bin_output b b.reserve_in + walk_output (remaining - b.reserve_in) bs

unfoldable pub total_reserve_out : List Bin → ℕ
total_reserve_out [] = 0
total_reserve_out (b ∷ bs) = b.reserve_out + total_reserve_out bs

scaled : (ri ro a q : ℕ) → a ≤ ri → (ri + a) * q ≤ ro * a → a * (2 * q) ≤ a * ro
scaled ri ro a q h e = grind arith

empty : (ri ro q : ℕ) → 0 < ri → (ri + 0) * q ≤ ro * 0 → q ≡ 0
empty ri ro q p e = grind arith

-- A bin pays at most half of its reserve for an amount up to the other.
half : (ri ro a q : ℕ) → 0 < ri → a ≤ ri → (ri + a) * q ≤ ro * a → 2 * q ≤ ro
half ri ro zero q p h e = omega (arith, empty ri ro q p e)
half ri ro (suc a) q p h e = le_of_mul-le-mul_left (scaled ri ro (suc a) q h e) (omega arith)

bin_output-half :
    (b : Bin) (amount : ℕ)
    → FitsBin b
    → amount ≤ b.reserve_in
    → 2 * bin_output b amount ≤ b.reserve_out
bin_output-half b amount f h =
    half b.reserve_in b.reserve_out amount (bin_output b amount) f.in_pos h
      (mul-div-le (b.reserve_out * amount) (b.reserve_in + amount))

add_output-ok :
    (b : Bin) (amount total : ℕ)
    → FitsBin b
    → amount ≤ b.reserve_in
    → total + u64_mod < u128_mod
    → add_output b.reserve_in b.reserve_out amount total ≡ ok (total + bin_output b amount)
unfolding add_output ◌>>=◌ ok_or
add_output-ok b amount total f h room =
    let h2 = bin_output-half b amount f h in
    rw
      (
        checked_mul-fits u128_mod b.reserve_out amount
            (mul-lt_u128 b.reserve_out amount f.out_lt (omega (arith, f.in_lt))),
        checked_add-fits u128_mod b.reserve_in amount (omega (arith, f.in_lt)),
        checked_div-pos (b.reserve_out * amount) (b.reserve_in + amount) (omega (arith, f.in_pos)),
        checked_add-fits u128_mod total (bin_output b amount) (omega (arith, f.out_lt)),
      )
      refl

-- On bins with 64-bit reserves that are not empty, and a total with room for them in 128 bits, the
-- walk never fails: it adds up the bins' outputs exactly, at most half of the output reserves.
pub walk-exact :
    (bins : List Bin) (remaining total : ℕ)
    → All FitsBin bins
    → total + length bins * u64_mod < u128_mod
    → (walk remaining total bins ≡ ok (total + walk_output remaining bins))
      × (2 * walk_output remaining bins ≤ total_reserve_out bins)
unfolding walk walk_output total_reserve_out ◌>>=◌ ok_or
walk-exact [] remaining total h room = (ap ok (omega arith), omega arith)
walk-exact (b ∷ bs) remaining total (f, fs) room = elim (Bool-cases (leb remaining b.reserve_in)) [
  | inl t ↦
      let within = leb→le remaining b.reserve_in t in
      let h2 = bin_output-half b remaining f within in
      rw (t) (add_output-ok b remaining total f within (omega arith), omega arith)
  | inr t ↦
      let beyond = leb→lt remaining b.reserve_in t in
      let h2 = bin_output-half b b.reserve_in f (omega arith) in
      let ih =
        walk-exact bs (remaining - b.reserve_in) (total + bin_output b b.reserve_in) fs
          (omega (arith, f.out_lt)) in
      rw (t) (
        rw
            (
              add_output-ok b b.reserve_in total f (omega arith) (omega arith),
              checked_sub-le remaining b.reserve_in (omega arith),
            )
            (ih.0 ∙ ap ok (omega arith)),
        omega (arith, ih.1),
      )
]
