-- ===== src/Client/Route/SectionData.antt =====
-- src/executor/atomic/generic_route.rs: the data of a section, resolved from cached pool states, and
-- the tick arrays of a Whirlpool section. Addresses are taken as parsed from their texts.
pub mod TickArrays
pub mod Counts
use solana_atomic_arbitrage.Base.{
  ℕ, zero, suc, ◌+◌, ◌-◌, ◌*◌, ◌/◌, ◌%◌, ◌^◌, Bool, true, false, ◌&&◌, not, List, [], ◌∷◌, map,
  Option, none, some, length, take, min, ◌==◌, ◌/=◌, if◌then◌else◌,
}
use solana_atomic_arbitrage.Base.Bytes.{to_le_bytes}
use solana_atomic_arbitrage.Base.Int.{
  ℤ, pos, negsuc, sub_ℕ, pos_part, neg_part, add_ℤ, mul_ℕ, as_i32,
}
use solana_atomic_arbitrage.Base.Options.{◌>>=◌, ◌>>◌, none_if}
use solana_atomic_arbitrage.Client.Constants
use solana_atomic_arbitrage.Client.Pool.{PumpSwapPoolMeta}
use solana_atomic_arbitrage.Client.Route.GenericSections.{DlmmTokens, tokenkeg_cl, oracle_seed}
use solana_atomic_arbitrage.Client.Route.Sections.{DlmmKeys, pumpswap_buy_remaining_count}
use solana_atomic_arbitrage.Client.Simulator.Raydium.{PoolStateData}
use solana_atomic_arbitrage.PoolCache.Dlmm.{DlmmPoolReserves}
use solana_atomic_arbitrage.Router.Types.{Pubkey, Runtime, as_ref}

pub record WhirlpoolSectionData : Type 0 where
  pub pool : Pubkey
  pub vault_a : Pubkey
  pub vault_b : Pubkey
  pub tick_arrays : List Pubkey
  pub sol_is_x : Bool

pub record CpmmSectionData : Type 0 where
  pub pool : Pubkey
  pub config : Pubkey

pub record PumpSwapSectionData : Type 0 where
  pub pool : Pubkey
  pub pool_meta : PumpSwapPoolMeta
  pub remaining_count : ℕ

-- The keys of the fixed accounts, the token accounts at 9 to 12, and the bin arrays.
pub record DlmmSectionData : Type 0 where
  pub keys : DlmmKeys
  pub tokens : DlmmTokens
  pub bin_arrays : List Pubkey
  pub bin_count : ℕ

abbrev pub whirlpool_tick_array_size : ℕ
whirlpool_tick_array_size = 88

-- `a ^ b < 0`, for numbers given by whether they are negative.
abbrev signs_differ : ℤ → ℤ → Bool
signs_differ (pos a) (pos b) = false
signs_differ (pos a) (negsuc b) = true
signs_differ (negsuc a) (pos b) = true
signs_differ (negsuc a) (negsuc b) = false

abbrev magnitude : ℤ → ℕ
magnitude a = pos_part a + neg_part a

-- `a / b`, which drops the fraction towards zero.
abbrev truncated_div : ℤ → ℤ → ℤ
truncated_div a b =
    if signs_differ a b
    then sub_ℕ 0 (magnitude a / magnitude b)
    else pos (magnitude a / magnitude b)

-- Its caller passes a positive divisor; `a % b` is zero where the remainder of the magnitudes is.
unfoldable pub floor_div_i32 : ℤ → ℤ → ℤ
floor_div_i32 a b =
    let d = truncated_div a b in
    if ((magnitude a % magnitude b) /= 0) && signs_differ a b then add_ℤ d (negsuc 0) else d

-- "tick_array"
abbrev tick_array_seed : List ℕ
tick_array_seed = 116 ∷ 105 ∷ 99 ∷ 107 ∷ 95 ∷ 97 ∷ 114 ∷ 114 ∷ 97 ∷ 121 ∷ []

-- `i32::to_le_bytes`
abbrev i32_bytes : ℤ → List ℕ
i32_bytes (pos n) = to_le_bytes 4 n
i32_bytes (negsuc n) = to_le_bytes 4 (2 ^ 32 - 1 - n)

abbrev pub tick_array_pda : Runtime → Pubkey → ℤ → Pubkey
tick_array_pda rt whirlpool tick =
    rt.find_program_address (tick_array_seed ∷ as_ref whirlpool ∷ i32_bytes tick ∷ [])
      Constants.whirlpool_program

unfoldable pub start_tick : ℤ → ℕ → ℤ
start_tick tick_current_index tick_range =
    as_i32 (mul_ℕ (floor_div_i32 tick_current_index (pos tick_range)) tick_range)

unfoldable pub derive_whirlpool_tick_arrays : Runtime → Pubkey → ℤ → ℕ → List Pubkey
derive_whirlpool_tick_arrays rt whirlpool tick_current_index tick_spacing =
    let wp = Constants.whirlpool_program in
    let tick_range = tick_spacing * whirlpool_tick_array_size in
    if tick_range == 0
    then wp ∷ wp ∷ wp ∷ []
    else map
        (λ i.
          tick_array_pda rt whirlpool
            (as_i32 (add_ℤ (start_tick tick_current_index tick_range) (pos (i * tick_range)))))
        (0 ∷ 1 ∷ 2 ∷ [])

unfoldable pub cpmm_section_data : PoolStateData → CpmmSectionData
cpmm_section_data s = record { pool = s.pool_pubkey; config = s.config_pubkey }

-- The list of tick arrays has three elements, so that no default of `unwrap_or` is used.
unfoldable pub whirlpool_section_data : Runtime → DlmmPoolReserves → Option WhirlpoolSectionData
whirlpool_section_data rt r = do
  none_if (r.token_x_mint /= Constants.native_sol_mint)
  some (record {
    pool = r.lb_pair;
    vault_a = r.reserve_x_address;
    vault_b = r.reserve_y_address;
    tick_arrays = derive_whirlpool_tick_arrays rt r.lb_pair r.tick_current_index r.bin_step;
    sol_is_x = true;
  })

abbrev key_or : Pubkey → Option Pubkey → Pubkey
key_or other none = other
key_or other (some key) = key

unfoldable pub dlmm_section_data : Runtime → DlmmPoolReserves → Pubkey → DlmmSectionData
dlmm_section_data rt r meme_token_program =
    let program = Constants.dlmm_program in
    let bin_count = min (length r.bin_array_addresses) 5 in
    record {
      keys = record {
        dlmm_program = program;
        lb_pair = r.lb_pair;
        bitmap = key_or program r.bin_array_bitmap_extension;
        reserve_x = r.reserve_x_address;
        reserve_y = r.reserve_y_address;
        oracle = rt.find_program_address (oracle_seed ∷ as_ref r.lb_pair ∷ []) program;
        host_fee = program;
        memo_program = Constants.memo_program;
        event_auth = Constants.dlmm_event_authority;
      };
      tokens = record {
        token_x_mint = r.token_x_mint;
        token_y_mint = r.token_y_mint;
        token_x_program = tokenkeg_cl;
        token_y_program = meme_token_program;
      };
      bin_arrays = take bin_count r.bin_array_addresses;
      bin_count = bin_count;
    }

unfoldable pub pumpswap_section_data : PumpSwapPoolMeta → Pubkey → PumpSwapSectionData
pumpswap_section_data pool_meta pool = record {
  pool = pool;
  pool_meta = pool_meta;
  remaining_count = pumpswap_buy_remaining_count pool_meta;
}
