-- ===== src/PoolCache/Dlmm/Window.antt =====
-- src/pool_cache/dlmm/bins.rs: the arrays that are fetched, against the bins that they hold.
use solana_atomic_arbitrage.Base.{
  ℕ, ◌-◌, ◌/◌, ◌%◌, ◌^◌, ◌<◌, ◌≡◌, List, some, get_elem?, arith, Bool-cases, inl, inr, ◌==◌,
}
use solana_atomic_arbitrage.Base.Int.{ℤ, pos, negsuc}
use solana_atomic_arbitrage.PoolCache.Dlmm.{
  active_bin_array_idx, offsets_of_five, offsets_of_three, array_indices,
}
use solana_atomic_arbitrage.Router.Pricing.Dlmm.{bin_id_of}

-- The value of an `i32`.
abbrev pub FitsI32 : ℤ → Type 0
FitsI32 (pos n) = n < 2 ^ 31
FitsI32 (negsuc n) = n < 2 ^ 31

-- An array index of the list, and a place in the array, whose bin has this id.
abbrev pub HoldsBin : List ℤ → ℤ → Type 0
HoldsBin indices id =
    (i : ℕ) × (idx : ℤ) × (place : ℕ) × (get_elem? indices i ≡ some idx)
    × (place < 70)
    × (bin_id_of idx place ≡ id)

bin_id_of-pos : (n : ℕ) → n < 2 ^ 31 → bin_id_of (pos (n / 70)) (n % 70) ≡ pos n
unfolding bin_id_of
bin_id_of-pos n h = ground arith

bin_id_of-negsuc : (n : ℕ) → n < 2 ^ 31 → bin_id_of (negsuc (n / 70)) (69 - n % 70) ≡ negsuc n
unfolding bin_id_of
bin_id_of-negsuc n h = ground arith

-- For every 32-bit active id, negative ones included, the three and the five bin arrays that are
-- fetched have one that holds the active bin.
pub array_indices-HoldsBin :
    (active_id : ℤ)
    → FitsI32 active_id
    → HoldsBin (array_indices offsets_of_three active_id) active_id
      × HoldsBin (array_indices offsets_of_five active_id) active_id
unfolding array_indices active_bin_array_idx
array_indices-HoldsBin (pos n) h = (
  (1, pos (n / 70), n % 70, ground arith, omega arith, bin_id_of-pos n h),
  (2, pos (n / 70), n % 70, ground arith, omega arith, bin_id_of-pos n h),
)
array_indices-HoldsBin (negsuc n) h = elim (Bool-cases (n % 70 == 69)) [
  | inl last ↦ (
    (1, negsuc (n / 70), 69 - n % 70, ground arith, omega arith, bin_id_of-negsuc n h),
    (2, negsuc (n / 70), 69 - n % 70, ground arith, omega arith, bin_id_of-negsuc n h),
  )
  | inr inside ↦ (
    (0, negsuc (n / 70), 69 - n % 70, ground arith, omega arith, bin_id_of-negsuc n h),
    (1, negsuc (n / 70), 69 - n % 70, ground arith, omega arith, bin_id_of-negsuc n h),
  )
]
