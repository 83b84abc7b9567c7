-- ===== src/Router/Pricing/Dlmm.antt =====
-- programs/arbitrage/src/pricing/dlmm.rs: the bins of the arrays, their order, and the walk.
pub mod Walk
pub mod Estimate
pub mod Collect
use solana_atomic_arbitrage.Base.{
  ℕ, zero, suc, ◌+◌, ◌-◌, ◌*◌, ◌/◌, ◌%◌, ◌^◌, min, Bool, List, [], ◌∷◌, ◌++◌, Option, none, some,
  length, get_elem?, ltb, leb, ◌==◌, ◌&&◌, if◌then◌else◌,
}
use solana_atomic_arbitrage.Base.Bytes.{slice, from_le_bytes}
use solana_atomic_arbitrage.Base.Checked.{
  u64_mod, u128_mod, checked_add, checked_sub, checked_mul, checked_div,
}
use solana_atomic_arbitrage.Base.Int.{ℤ, pos, negsuc, sub_ℕ, leb_ℤ, signed64, saturate64, as_i32}
use solana_atomic_arbitrage.Router.Error.{arb_err, arb_empty_bins, arb_price_math_overflow}
use solana_atomic_arbitrage.Router.Types.{AccountInfo, Result, ok, ◌>>=◌, ◌>>◌, fail_if, ok_or}

abbrev pub bin_array_header_size : ℕ
bin_array_header_size = 56

unfoldable pub read_bin_amounts : List ℕ → ℕ → Option (ℕ × ℕ)
read_bin_amounts bytes base_offset =
    if ltb (length bytes) (base_offset + 16)
    then none
    else some
        (from_le_bytes (slice bytes base_offset 8), from_le_bytes (slice bytes (base_offset + 8) 8))

-- A bin: its id and the two reserves.
pub record Bin : Type 0 where
  pub bin_id : ℤ
  pub reserve_in : ℕ
  pub reserve_out : ℕ

abbrev pub mul_70 : ℤ → ℤ
mul_70 (pos n) = pos (n * 70)
mul_70 (negsuc n) = negsuc (n * 70 + 69)

abbrev pub add_ℕ : ℤ → ℕ → ℤ
add_ℕ (pos n) k = pos (n + k)
add_ℕ (negsuc n) k = sub_ℕ k (suc n)

-- `arr_index.saturating_mul(70).saturating_add(bin_i as i64) as i32`
unfoldable pub bin_id_of : ℤ → ℕ → ℤ
bin_id_of arr_index bin_i = as_i32 (saturate64 (add_ℕ (saturate64 (mul_70 arr_index)) bin_i))

abbrev pub push_bin : ℤ → ℕ → ℕ → List Bin → List Bin
push_bin id ri ro rest =
    if ltb 0 ri && ltb 0 ro
    then record { bin_id = id; reserve_in = ri; reserve_out = ro } ∷ rest
    else rest

-- The loop `for bin_i in 0..70`, of which `n` rounds are left.
unfoldable pub array_bins : List ℕ → ℕ → ℤ → Bool → ℕ → ℕ → List Bin
array_bins bytes stride arr_index is_x_to_y bin_i zero = []
array_bins bytes stride arr_index is_x_to_y bin_i (suc n) =
    let rest = array_bins bytes stride arr_index is_x_to_y (bin_i + 1) n in
    elim (read_bin_amounts bytes (bin_array_header_size + bin_i * stride)) [
      | none ↦ []
      | some amounts ↦
          if is_x_to_y
          then push_bin (bin_id_of arr_index bin_i) amounts.0 amounts.1 rest
          else push_bin (bin_id_of arr_index bin_i) amounts.1 amounts.0 rest
    ]

-- The stride of a version; none is `continue`.
unfoldable pub stride_of : ℕ → Option ℕ
stride_of version = if version == 1 then some 128 else if version == 2 then some 144 else none

abbrev pub version_of : List ℕ → ℕ
version_of bytes = elim (get_elem? bytes 16) [ some v ↦ v | none ↦ 1 ]

unfoldable pub bins_of : Bool → List ℕ → List Bin
bins_of is_x_to_y bytes =
    if ltb (length bytes) bin_array_header_size then [] else elim (stride_of (version_of bytes)) [
      | none ↦ []
      | some stride ↦
          array_bins bytes stride (signed64 (from_le_bytes (slice bytes 8 8))) is_x_to_y 0 70
    ]

unfoldable pub all_bins : Bool → List AccountInfo → List Bin
all_bins is_x_to_y [] = []
all_bins is_x_to_y (arr ∷ arrs) = bins_of is_x_to_y arr.bytes ++ all_bins is_x_to_y arrs

-- The stable sort by bin id: downwards for X to Y, upwards otherwise.
abbrev pub before : Bool → Bin → Bin → Bool
before is_x_to_y a b = if is_x_to_y then leb_ℤ b.bin_id a.bin_id else leb_ℤ a.bin_id b.bin_id

unfoldable pub insert_bin : Bool → Bin → List Bin → List Bin
insert_bin is_x_to_y a [] = a ∷ []
insert_bin is_x_to_y a (b ∷ bs) =
    let rest = insert_bin is_x_to_y a bs in if before is_x_to_y a b then a ∷ b ∷ bs else b ∷ rest

unfoldable pub sort_bins : Bool → List Bin → List Bin
sort_bins is_x_to_y [] = []
sort_bins is_x_to_y (b ∷ bs) = insert_bin is_x_to_y b (sort_bins is_x_to_y bs)

abbrev overflow_or : Option ℕ → Result ℕ
overflow_or o = ok_or o (arb_err arb_price_math_overflow)

abbrev unwrap_or_zero : Option ℕ → ℕ
unwrap_or_zero none = 0
unwrap_or_zero (some n) = n

-- What one bin pays for `amount`, added to the total.
unfoldable pub add_output : ℕ → ℕ → ℕ → ℕ → Result ℕ
add_output ri ro amount total_out = do
  num ← overflow_or (checked_mul u128_mod ro amount)
  den ← overflow_or (checked_add u128_mod ri amount)
  overflow_or (checked_add u128_mod total_out (unwrap_or_zero (checked_div num den)))

-- The loop over the sorted bins.
unfoldable pub walk : ℕ → ℕ → List Bin → Result ℕ
walk remaining_in total_out [] = ok total_out
walk remaining_in total_out (b ∷ bs) =
    if leb remaining_in b.reserve_in
    then add_output b.reserve_in b.reserve_out remaining_in total_out
    else do
      total ← add_output b.reserve_in b.reserve_out b.reserve_in total_out
      left ← overflow_or (checked_sub remaining_in b.reserve_in)
      walk left total bs

abbrev is_empty : List Bin → Bool
is_empty bins = length bins == 0

unfoldable pub estimate_bins : ℕ → Bool → List Bin → Result ℕ
estimate_bins amount_in is_x_to_y bins = do
  fail_if (is_empty bins) (arb_err arb_empty_bins)
  total ← walk amount_in 0 (sort_bins is_x_to_y bins)
  ok (total % u64_mod)

unfoldable pub estimate_dlmm_swap_output : List AccountInfo → ℕ → Bool → Result ℕ
estimate_dlmm_swap_output bin_arrays amount_in is_x_to_y =
    if amount_in == 0
    then ok 0
    else estimate_bins amount_in is_x_to_y (all_bins is_x_to_y bin_arrays)
