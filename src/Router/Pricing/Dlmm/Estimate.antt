-- ===== src/Router/Pricing/Dlmm/Estimate.antt =====
-- pricing/dlmm.rs, `estimate_dlmm_swap_output`, from the collected bins on: the sort and the walk.
use solana_atomic_arbitrage.Base.{
  ℕ, suc, ◌+◌, ◌*◌, ◌%◌, ◌^◌, ◌≤◌, ◌<◌, ◌≡◌, ap, refl, Bool, false, Bool-cases, inl, inr, List, [],
  ◌∷◌, All, length, ◌==◌, arith,
}
use solana_atomic_arbitrage.Base.Checked.{u64_mod}
use solana_atomic_arbitrage.Router.Pricing.Dlmm.{Bin, before, insert_bin, sort_bins, estimate_bins}
use solana_atomic_arbitrage.Router.Pricing.Dlmm.Walk.{
  FitsBin, walk_output, total_reserve_out, walk-exact,
}
use solana_atomic_arbitrage.Router.Types.{ok, ◌>>=◌, fail_if}

-- The sort keeps the number of bins, their reserves, and what holds of each of them.
insert_bin-FitsBin :
    (d : Bool) (a : Bin) (bs : List Bin)
    → FitsBin a
    → All FitsBin bs
    → All FitsBin (insert_bin d a bs)
unfolding insert_bin
insert_bin-FitsBin d a [] f h = (f, tt)
insert_bin-FitsBin d a (b ∷ bs) f (g, h) = elim (Bool-cases (before d a b)) [
  | inl t ↦ rw (t) (f, (g, h))
  | inr t ↦ rw (t) (g, insert_bin-FitsBin d a bs f h)
]

sort_bins-FitsBin : (d : Bool) (bs : List Bin) → All FitsBin bs → All FitsBin (sort_bins d bs)
unfolding sort_bins
sort_bins-FitsBin d [] h = tt
sort_bins-FitsBin d (b ∷ bs) (f, h) =
    insert_bin-FitsBin d b (sort_bins d bs) f (sort_bins-FitsBin d bs h)

insert_bin-totals :
    (d : Bool) (a : Bin) (bs : List Bin)
    → (length (insert_bin d a bs) ≡ suc (length bs))
      × (total_reserve_out (insert_bin d a bs) ≡ a.reserve_out + total_reserve_out bs)
unfolding insert_bin total_reserve_out
insert_bin-totals d a [] = (refl, refl)
insert_bin-totals d a (b ∷ bs) = elim (Bool-cases (before d a b)) [
  | inl t ↦ rw (t) (refl, refl)
  | inr t ↦ rw (t) (let (n, r) = insert_bin-totals d a bs in (omega (arith, n), omega (arith, r)))
]

sort_bins-totals :
    (d : Bool) (bs : List Bin)
    → (length (sort_bins d bs) ≡ length bs)
      × (total_reserve_out (sort_bins d bs) ≡ total_reserve_out bs)
unfolding sort_bins total_reserve_out
sort_bins-totals d [] = (refl, refl)
sort_bins-totals d (b ∷ bs) =
    let (n, r) = sort_bins-totals d bs in
    let (m, s) = insert_bin-totals d b (sort_bins d bs) in
    (omega (arith, n, m), omega (arith, r, s))

-- On bins that fit 64 bits, at most 2 ^ 32 of them and at least one, the estimate does not fail: it
-- is the output of the walk in the sorted order, cut off at 64 bits, and that output is at most half
-- of the output reserves of the bins.
pub estimate_bins-exact :
    (amount_in : ℕ) (is_x_to_y : Bool) (bins : List Bin)
    → All FitsBin bins
    → 0 < length bins
    → length bins < 2 ^ 32
    → (estimate_bins amount_in is_x_to_y bins
        ≡ ok (walk_output amount_in (sort_bins is_x_to_y bins) % u64_mod))
      × (2 * walk_output amount_in (sort_bins is_x_to_y bins) ≤ total_reserve_out bins)
unfolding estimate_bins ◌>>=◌ fail_if
estimate_bins-exact amount_in is_x_to_y bins fits some_bin few =
    let (n, r) = sort_bins-totals is_x_to_y bins in
    let (walked, half) =
      walk-exact (sort_bins is_x_to_y bins) amount_in 0 (sort_bins-FitsBin is_x_to_y bins fits)
        (omega (arith, n)) in
    (
      rw (not_empty (length bins) some_bin, walked)
          (ap (λ t. ok (t % u64_mod)) {x = 0 + walk_output amount_in (sort_bins is_x_to_y bins)}
            (omega arith)),
      omega (arith, half, r),
    )
  where
    not_empty : (n : ℕ) → 0 < n → (n == 0) ≡ false
    not_empty n h = ground arith
