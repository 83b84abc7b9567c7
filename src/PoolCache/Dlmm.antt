-- ===== src/PoolCache/Dlmm.antt =====
-- src/pool_cache/dlmm/bins.rs: the bin arrays of a DLMM pair, as the client derives their addresses
-- and parses their data.
pub mod Window
pub mod Agreement
pub mod Fetch
pub mod Cleanup
use solana_atomic_arbitrage.Base.{
  ℕ, zero, suc, ◌+◌, ◌-◌, ◌*◌, ◌/◌, ◌^◌, Bool, List, [], ◌∷◌, ◌++◌, map, Option, none, some, length,
  ltb, if◌then◌else◌, get_elem?, ◌==◌,
}
use solana_atomic_arbitrage.Base.Bytes.{slice, from_le_bytes, to_le_bytes}
use solana_atomic_arbitrage.Base.Int.{
  ℤ, pos, negsuc, sub_ℕ, add_ℤ, mul_ℕ, signed64, saturate64, as_i32,
}
use solana_atomic_arbitrage.Base.Options.{◌>>=◌, ◌>>◌, none_if}
use solana_atomic_arbitrage.Client.Constants
use solana_atomic_arbitrage.Client.Pool.{key_at}
use solana_atomic_arbitrage.PoolCache.Node.{Account, Node, amount_at, parse_optional_pubkey}
use solana_atomic_arbitrage.Router.Types.{Pubkey, Runtime, as_ref}

-- A bin of the client; the two `reserve` fields are always 0.
pub record DlmmBin : Type 0 where
  pub bin_id : ℤ
  pub amount_x : ℕ
  pub amount_y : ℕ
  pub reserve_x : ℕ
  pub reserve_y : ℕ

-- `HEADER_SIZE`
abbrev pub header_size : ℕ
header_size = 8 + 48

-- `bdata.get(16).copied().unwrap_or(1)`
abbrev pub array_version : List ℕ → ℕ
array_version bytes = elim (get_elem? bytes 16) [ some v ↦ v | none ↦ 1 ]

-- `match version`, where none is its early return.
unfoldable pub bin_stride : ℕ → Option ℕ
bin_stride version = if version == 1 then some 128 else if version == 2 then some 144 else none

-- `arr_idx.saturating_mul(70i64).saturating_add(i as i64) as i32`
unfoldable pub parsed_bin_id : ℤ → ℕ → ℤ
parsed_bin_id arr_idx i = as_i32 (saturate64 (add_ℤ (saturate64 (mul_ℕ arr_idx 70)) (pos i)))

-- The loop `for i in 0..70`, of which `n` rounds are left.
unfoldable pub parse_bins : List ℕ → ℕ → ℤ → ℕ → ℕ → List DlmmBin
parse_bins bytes stride arr_idx i zero = []
parse_bins bytes stride arr_idx i (suc n) =
    let rest = parse_bins bytes stride arr_idx (i + 1) n in
    let offset = header_size + i * stride in
    if ltb (length bytes) (offset + 16)
    then []
    else record {
      bin_id = parsed_bin_id arr_idx i;
      amount_x = from_le_bytes (slice bytes offset 8);
      amount_y = from_le_bytes (slice bytes (offset + 8) 8);
      reserve_x = 0;
      reserve_y = 0;
    }
      ∷ rest

-- What `parse_bin_array_data` appends.
unfoldable pub parse_bin_array_data : List ℕ → List DlmmBin
parse_bin_array_data bytes =
    if ltb (length bytes) header_size then [] else elim (bin_stride (array_version bytes)) [
      | none ↦ []
      | some stride ↦ parse_bins bytes stride (signed64 (from_le_bytes (slice bytes 8 8))) 0 70
    ]

abbrev pub bins_per_array : ℕ
bins_per_array = 70

-- `active_id / BINS_PER_ARRAY`, which drops the fraction towards zero.
unfoldable pub active_bin_array_idx : ℤ → ℤ
active_bin_array_idx (pos n) = pos (n / bins_per_array)
active_bin_array_idx (negsuc n) = sub_ℕ 0 (suc n / bins_per_array)

-- The indices around the active one: `-2..=2` for reserves, `-1..=1` for fresh bins.
abbrev pub offsets_of_five : List ℤ
offsets_of_five = negsuc 1 ∷ negsuc 0 ∷ pos 0 ∷ pos 1 ∷ pos 2 ∷ []

abbrev pub offsets_of_three : List ℤ
offsets_of_three = negsuc 0 ∷ pos 0 ∷ pos 1 ∷ []

unfoldable pub array_indices : List ℤ → ℤ → List ℤ
array_indices offsets active_id =
    map (λ offset. add_ℤ (active_bin_array_idx active_id) offset) offsets

-- "bin_array"
abbrev bin_array_seed : List ℕ
bin_array_seed = 98 ∷ 105 ∷ 110 ∷ 95 ∷ 97 ∷ 114 ∷ 114 ∷ 97 ∷ 121 ∷ []

-- `i64::to_le_bytes`
abbrev i64_bytes : ℤ → List ℕ
i64_bytes (pos n) = to_le_bytes 8 n
i64_bytes (negsuc n) = to_le_bytes 8 (2 ^ 64 - 1 - n)

unfoldable pub bin_array_addresses : Runtime → Pubkey → List ℤ → List Pubkey
bin_array_addresses rt lb_pair indices =
    map
      (λ idx.
        rt.find_program_address (bin_array_seed ∷ as_ref lb_pair ∷ i64_bytes idx ∷ [])
          Constants.dlmm_program)
      indices

-- `i32::from_le_bytes`
abbrev pub i32_at : List ℕ → ℕ → ℤ
i32_at bytes off =
    let n = from_le_bytes (slice bytes off 4) in
    if ltb n (2 ^ 31) then pos n else negsuc (2 ^ 32 - 1 - n)

-- The bins of the arrays that were returned, in their order.
unfoldable pub parse_all : List (Option Account) → List DlmmBin
parse_all [] = []
parse_all (none ∷ rest) = parse_all rest
parse_all (some a ∷ rest) = parse_bin_array_data a.bytes ++ parse_all rest

-- The part of `DlmmPoolMetadata` that the fetch reads, its texts taken as parsed keys.
pub record DlmmPoolMetadata : Type 0 where
  pub lb_pair : Pubkey
  pub token_x_mint : Pubkey
  pub token_y_mint : Pubkey
  pub bin_step : ℕ
  pub base_factor : ℕ

pub record DlmmPoolReserves : Type 0 where
  pub lb_pair : Pubkey
  pub token_x_mint : Pubkey
  pub token_y_mint : Pubkey
  pub reserve_x : ℕ
  pub reserve_y : ℕ
  pub reserve_x_address : Pubkey
  pub reserve_y_address : Pubkey
  pub bin_array_addresses : List Pubkey
  pub bins : List DlmmBin
  pub bin_step : ℕ
  pub base_factor : ℕ
  pub active_id : ℤ
  pub bin_array_bitmap_extension : Option Pubkey
  pub sqrt_price : ℕ
  pub tick_current_index : ℤ
  pub fee_rate : ℕ

abbrev pub reserve_pda : Runtime → Pubkey → Pubkey → Pubkey
reserve_pda rt lb_pair mint =
    rt.find_program_address (as_ref lb_pair ∷ as_ref mint ∷ []) Constants.dlmm_program

-- `accounts[2..]` in the loop over the bin arrays.
abbrev past_two : List (Option Account) → List (Option Account)
past_two (a ∷ b ∷ rest) = rest
past_two other = []

unfoldable pub fetch_reserves_with_metadata :
    Runtime → Node → DlmmPoolMetadata → Option DlmmPoolReserves
fetch_reserves_with_metadata rt node m = do
  pair ← node.get_account m.lb_pair
  none_if (ltb (length pair.bytes) 152)
  let active_id = i32_at pair.bytes 76
  let reserve_x_pda = reserve_pda rt m.lb_pair m.token_x_mint
  let reserve_y_pda = reserve_pda rt m.lb_pair m.token_y_mint
  let arrays = bin_array_addresses rt m.lb_pair (array_indices offsets_of_five active_id)
  accounts ← node.get_multiple_accounts (reserve_x_pda ∷ reserve_y_pda ∷ arrays)
  some (record {
    lb_pair = m.lb_pair;
    token_x_mint = m.token_x_mint;
    token_y_mint = m.token_y_mint;
    reserve_x = amount_at accounts 0;
    reserve_y = amount_at accounts 1;
    reserve_x_address = reserve_x_pda;
    reserve_y_address = reserve_y_pda;
    bin_array_addresses = arrays;
    bins = parse_all (past_two accounts);
    bin_step = m.bin_step;
    base_factor = from_le_bytes (slice pair.bytes 84 2);
    active_id = active_id;
    bin_array_bitmap_extension = parse_optional_pubkey pair.bytes 248;
    sqrt_price = 0;
    tick_current_index = pos 0;
    fee_rate = 0;
  })
