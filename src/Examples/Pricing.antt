-- ===== src/Examples/Pricing.antt =====
-- The pricing theorems at concrete reserves.
use solana_atomic_arbitrage.Base.{
  ◌+◌, ◌-◌, ◌*◌, ◌<◌, ◌≤◌, ◌≡◌, refl, List, [], ◌∷◌, All, some, arith, replicate, ◌++◌, Bool, true,
  false, ltb, ltb→lt, ◌&&◌, Bool-cases, inl, inr, subst, length, ◌%◌, ℕ,
}
use solana_atomic_arbitrage.Base.Checked.{
  checked_add, checked_sub, checked_mul, checked_div, u64_mod,
}
use solana_atomic_arbitrage.Base.Int.{pos}
use solana_atomic_arbitrage.Base.Options.{◌>>=◌, none_if}
use solana_atomic_arbitrage.Router.Pricing.Cpmm.{cpmm_swap_output, quote}
use solana_atomic_arbitrage.Router.Pricing.Cpmm.Bounds.{
  cpmm_swap_output-eq-quote, cpmm_swap_output-product,
}
use solana_atomic_arbitrage.Router.Pricing.Dlmm.{
  Bin, walk, all_bins, bins_of, stride_of, array_bins, read_bin_amounts, sort_bins,
  estimate_dlmm_swap_output,
}
use solana_atomic_arbitrage.Router.Pricing.Dlmm.Walk.{
  FitsBin, walk_output, total_reserve_out, walk-exact,
}
use solana_atomic_arbitrage.Router.Types.{ok, AccountInfo}
use solana_atomic_arbitrage.Base.Bytes.{from_le_bytes}
use solana_atomic_arbitrage.Router.Pricing.Dlmm.Collect.{IsBytes, estimate_dlmm_swap_output-exact}

cpmm_swap_output-eq-quote_example :
    cpmm_swap_output 80000000000 1000000000 1000000 30 ≡ quote 80000000000 1000000000 1000000 30
cpmm_swap_output-eq-quote_example =
    cpmm_swap_output-eq-quote 80000000000 1000000000 1000000 30 (omega arith) (omega arith)
      (omega arith) (omega arith)

-- 12462 units out, 2992 of the input kept as the fee.
quoted : cpmm_swap_output 80000000000 1000000000 1000000 30 ≡ some (12462, 2992)
unfolding cpmm_swap_output checked_add checked_sub checked_mul checked_div ◌>>=◌ none_if
quoted = refl

cpmm_swap_output-product_example :
    (0 < 12462)
    × (12462 < 1000000000)
    × (2992 ≤ 1000000)
    × (80000000000 * 1000000000 ≤ (80000000000 + (1000000 - 2992)) * (1000000000 - 12462))
cpmm_swap_output-product_example =
    cpmm_swap_output-product 80000000000 1000000000 1000000 30 12462 2992 (omega arith)
      (omega arith) (omega arith) (omega arith) quoted

abbrev two_bins : List Bin
two_bins =
    record { bin_id = pos 8; reserve_in = 100; reserve_out = 300 }
    ∷ record { bin_id = pos 7; reserve_in = 200; reserve_out = 500 }
    ∷ []

two_bins-FitsBin : All FitsBin two_bins
two_bins-FitsBin = (
  record { in_pos = omega arith; in_lt = omega arith; out_lt = omega arith },
  (record { in_pos = omega arith; in_lt = omega arith; out_lt = omega arith }, tt),
)

walk-exact_example :
    (walk 150 0 two_bins ≡ ok (0 + walk_output 150 two_bins))
    × (2 * walk_output 150 two_bins ≤ total_reserve_out two_bins)
walk-exact_example = walk-exact two_bins 150 0 two_bins-FitsBin (omega arith)

-- A bin array with one bin: index 0, version 1, 100 of X and 300 of Y.
abbrev array_bytes : List ℕ
array_bytes = replicate 16 0 ++ 1 ∷ replicate 39 0 ++ 100 ∷ replicate 7 0 ++ 44 ∷ 1 ∷ replicate 6 0

abbrev bin_array : AccountInfo
bin_array = record {
  key = 31;
  owner = 0;
  lamports = 0;
  bytes = array_bytes;
  is_signer = false;
  is_writable = true;
}

abbrev are_bytes : List ℕ → Bool
are_bytes [] = true
are_bytes (b ∷ bs) = ltb b 256 && are_bytes bs

are_bytes-IsBytes : (bs : List ℕ) → are_bytes bs ≡ true → IsBytes bs
are_bytes-IsBytes [] h = tt
are_bytes-IsBytes (b ∷ bs) h = elim (Bool-cases (ltb b 256)) [
  | inl p ↦ (ltb→lt b 256 p, are_bytes-IsBytes bs (subst (λ t. (t && are_bytes bs) ≡ true) p h))
  | inr p ↦ cc
]

one_bin : length (all_bins true (bin_array ∷ [])) ≡ 1
unfolding all_bins bins_of stride_of array_bins read_bin_amounts from_le_bytes
one_bin = refl

estimate_dlmm_swap_output-exact_example :
    (estimate_dlmm_swap_output (bin_array ∷ []) 50 true
      ≡ ok (walk_output 50 (sort_bins true (all_bins true (bin_array ∷ []))) % u64_mod))
    × (2 * walk_output 50 (sort_bins true (all_bins true (bin_array ∷ [])))
        ≤ total_reserve_out (all_bins true (bin_array ∷ [])))
estimate_dlmm_swap_output-exact_example =
    estimate_dlmm_swap_output-exact (bin_array ∷ []) 50 true
      (are_bytes-IsBytes array_bytes refl, tt) (omega arith) (omega arith) (omega (arith, one_bin))
