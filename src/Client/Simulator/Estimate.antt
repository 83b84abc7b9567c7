-- ===== src/Client/Simulator/Estimate.antt =====
-- src/simulator/dlmm/mod.rs, `estimate_dlmm_swap_output_full`: the client's walk through the bins.
-- The fee is the number that the code casts `fee * 10000.0` to; arithmetic wraps as in a release
-- build. The logged ratio is left out.
pub mod Bounds
use solana_atomic_arbitrage.Base.{
  ℕ, zero, suc, ◌+◌, ◌-◌, ◌*◌, ◌/◌, ◌%◌, ◌^◌, Bool, true, false, ◌||◌, List, [], ◌∷◌, ◌++◌, length,
  ltb, leb, ◌==◌, if◌then◌else◌,
}
use solana_atomic_arbitrage.Base.Checked.{u64_mod, u128_mod}
use solana_atomic_arbitrage.Base.Int.{ℤ, leb_ℤ}
use solana_atomic_arbitrage.PoolCache.Dlmm.{DlmmBin}

pub record DlmmEstimate : Type 0 where
  pub out : ℕ
  pub bins_consumed : ℕ
  pub bins_total : ℕ
  pub consumed_bins : List (ℤ × ℕ × ℕ)

-- The filter `amount_x > 0 || amount_y > 0`.
unfoldable pub active_bins : List DlmmBin → List DlmmBin
active_bins [] = []
active_bins (b ∷ bs) =
    let rest = active_bins bs in if ltb 0 b.amount_x || ltb 0 b.amount_y then b ∷ rest else rest

-- The stable sort: downwards for X to Y, upwards otherwise.
abbrev pub before : Bool → DlmmBin → DlmmBin → Bool
before is_x_to_y a b = if is_x_to_y then leb_ℤ b.bin_id a.bin_id else leb_ℤ a.bin_id b.bin_id

unfoldable pub insert_bin : Bool → DlmmBin → List DlmmBin → List DlmmBin
insert_bin is_x_to_y a [] = a ∷ []
insert_bin is_x_to_y a (b ∷ bs) =
    let rest = insert_bin is_x_to_y a bs in if before is_x_to_y a b then a ∷ b ∷ bs else b ∷ rest

unfoldable pub sort_bins : Bool → List DlmmBin → List DlmmBin
sort_bins is_x_to_y [] = []
sort_bins is_x_to_y (b ∷ bs) = insert_bin is_x_to_y b (sort_bins is_x_to_y bs)

abbrev pub side_in : Bool → DlmmBin → ℕ
side_in is_x_to_y b = if is_x_to_y then b.amount_x else b.amount_y

abbrev pub side_out : Bool → DlmmBin → ℕ
side_out is_x_to_y b = if is_x_to_y then b.amount_y else b.amount_x

-- The variables of the loop.
pub record Walked : Type 0 where
  pub total_out : ℕ
  pub bins_consumed : ℕ
  pub consumed_bins : List (ℤ × ℕ × ℕ)

-- One more bin in the count, and in the list of the first three.
unfoldable pub count_bin : Bool → DlmmBin → Walked → Walked
count_bin is_x_to_y b w = record w {
  bins_consumed = (w.bins_consumed + 1) % 2 ^ 32;
  consumed_bins =
      if ltb (length w.consumed_bins) 3
      then w.consumed_bins ++ (b.bin_id, side_in is_x_to_y b, side_out is_x_to_y b) ∷ []
      else w.consumed_bins;
}

unfoldable pub pay : ℕ → Walked → Walked
pay amount w = record w { total_out = (w.total_out + amount) % u128_mod }

-- The loop over the sorted bins.
unfoldable pub walk : Bool → ℕ → Walked → List DlmmBin → Walked
walk is_x_to_y remaining_in w [] = w
walk is_x_to_y remaining_in w (b ∷ bs) =
    let skipped = walk is_x_to_y remaining_in w bs in
    let exhausted =
      walk is_x_to_y (remaining_in - side_in is_x_to_y b)
        (pay (side_out is_x_to_y b) (count_bin is_x_to_y b w)) bs in
    let last =
      pay (side_out is_x_to_y b * remaining_in % u128_mod / side_in is_x_to_y b)
        (count_bin is_x_to_y b w) in
    if (side_in is_x_to_y b == 0) || (side_out is_x_to_y b == 0)
    then skipped
    else if leb remaining_in (side_in is_x_to_y b)
    then last
    else exhausted

unfoldable pub amount_after_fee : ℕ → ℕ → ℕ
amount_after_fee amount_in fee_bps =
    amount_in * ((10000 + u128_mod - fee_bps) % u128_mod) % u128_mod / 10000 % u64_mod

abbrev is_empty : List DlmmBin → Bool
is_empty bins = length bins == 0

unfoldable pub estimate_dlmm_swap_output_full : List DlmmBin → ℕ → Bool → ℕ → DlmmEstimate
estimate_dlmm_swap_output_full bins amount_in is_x_to_y fee_bps =
    let a = amount_after_fee amount_in fee_bps in
    let active = sort_bins is_x_to_y (active_bins bins) in
    let start : Walked = record { total_out = 0; bins_consumed = 0; consumed_bins = [] } in
    let w = walk is_x_to_y a start active in
    if is_empty bins || (a == 0)
    then record { out = 0; bins_consumed = 0; bins_total = 0; consumed_bins = [] }
    else record {
      out = w.total_out % u64_mod;
      bins_consumed = w.bins_consumed;
      bins_total = length active % 2 ^ 32;
      consumed_bins = w.consumed_bins;
    }

unfoldable pub estimate_dlmm_swap_output : List DlmmBin → ℕ → Bool → ℕ → ℕ
estimate_dlmm_swap_output bins amount_in is_x_to_y fee_bps =
    (estimate_dlmm_swap_output_full bins amount_in is_x_to_y fee_bps).out
