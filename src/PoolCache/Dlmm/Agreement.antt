-- ===== src/PoolCache/Dlmm/Agreement.antt =====
-- The client's parse of a bin array (src/pool_cache/dlmm/bins.rs) against the router's
-- (programs/arbitrage/src/pricing/dlmm.rs).
use solana_atomic_arbitrage.Base.{
  ℕ, zero, suc, ◌+◌, ◌≡◌, refl, Bool, true, false, List, [], ◌∷◌, Option-cases, Bool-cases, inl,
  inr, ltb, length, if◌then◌else◌, arith,
}
use solana_atomic_arbitrage.Base.Int.{ℤ, pos, negsuc}
use solana_atomic_arbitrage.PoolCache.Dlmm.{
  DlmmBin, parse_bins, parse_bin_array_data, header_size, array_version, bin_stride, parsed_bin_id,
}
use solana_atomic_arbitrage.Router.Pricing.Dlmm.{
  Bin, stride_of, push_bin, array_bins, bins_of, bin_id_of, read_bin_amounts,
}

-- The bins with something on both sides, turned to the direction of the swap.
abbrev pub oriented : Bool → List DlmmBin → List Bin
oriented is_x_to_y [] = []
oriented is_x_to_y (b ∷ bs) =
    let rest = oriented is_x_to_y bs in
    if is_x_to_y
    then push_bin b.bin_id b.amount_x b.amount_y rest
    else push_bin b.bin_id b.amount_y b.amount_x rest

parsed_bin_id-eq-bin_id_of : (arr_idx : ℤ) (i : ℕ) → parsed_bin_id arr_idx i ≡ bin_id_of arr_idx i
unfolding parsed_bin_id bin_id_of
parsed_bin_id-eq-bin_id_of (pos n) i = ground arith
parsed_bin_id-eq-bin_id_of (negsuc n) i = ground arith

bin_stride-eq-stride_of : (version : ℕ) → bin_stride version ≡ stride_of version
unfolding bin_stride stride_of
bin_stride-eq-stride_of version = refl

array_bins-eq-oriented :
    (bytes : List ℕ) (stride : ℕ) (arr_idx : ℤ) (is_x_to_y : Bool) (i n : ℕ)
    → array_bins bytes stride arr_idx is_x_to_y i n
      ≡ oriented is_x_to_y (parse_bins bytes stride arr_idx i n)
unfolding array_bins parse_bins read_bin_amounts
array_bins-eq-oriented bytes stride arr_idx is_x_to_y i zero = refl
array_bins-eq-oriented bytes stride arr_idx true i (suc n) =
    rw (parsed_bin_id-eq-bin_id_of arr_idx i)
      (ground (arith, array_bins-eq-oriented bytes stride arr_idx true (i + 1) n))
array_bins-eq-oriented bytes stride arr_idx false i (suc n) =
    rw (parsed_bin_id-eq-bin_id_of arr_idx i)
      (ground (arith, array_bins-eq-oriented bytes stride arr_idx false (i + 1) n))

-- On every account data the router's bins of a bin array are the client's bins of it that have
-- something on both sides, turned to the direction of the swap.
pub bins_of-eq-oriented :
    (is_x_to_y : Bool) (bytes : List ℕ)
    → bins_of is_x_to_y bytes ≡ oriented is_x_to_y (parse_bin_array_data bytes)
unfolding bins_of parse_bin_array_data
bins_of-eq-oriented is_x_to_y bytes = elim (Bool-cases (ltb (length bytes) header_size)) [
  | inl short ↦ rw short refl
  | inr long ↦ rw long (
      rw (bin_stride-eq-stride_of (array_version bytes))
        (elim (Option-cases (stride_of (array_version bytes))) [
          | inl e ↦ rw e refl
          | inr (stride, e) ↦ rw e (array_bins-eq-oriented bytes stride _ is_x_to_y 0 70)
        ]))
]
