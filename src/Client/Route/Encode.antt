-- ===== src/Client/Route/Encode.antt =====
-- src/executor/atomic/onchain_router.rs, `build_ix_data`: the 36 bytes that the router parses.
use solana_atomic_arbitrage.Base.{ℕ, Bool, List, [], ◌∷◌, ◌++◌, if◌then◌else◌}
use solana_atomic_arbitrage.Base.Bytes.{to_le_bytes}

abbrev pub bool_byte : Bool → ℕ
bool_byte b = if b then 1 else 0

unfoldable pub build_ix_data : List ℕ → ℕ → ℕ → ℕ → Bool → Bool → ℕ → ℕ → List ℕ
build_ix_data disc amount_in min_profit min_meme_out track_volume dlmm_sol_is_x pump_count
      bin_count =
    disc
    ++ (to_le_bytes 8 amount_in
        ++ (to_le_bytes 8 min_profit
            ++ (to_le_bytes 8 min_meme_out
                ++ bool_byte track_volume ∷ bool_byte dlmm_sol_is_x ∷ pump_count ∷ bin_count ∷ [])))
