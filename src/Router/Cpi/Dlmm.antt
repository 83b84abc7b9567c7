-- ===== src/Router/Cpi/Dlmm.antt =====
-- programs/arbitrage/src/cpi/dlmm.rs: `swap2`.
use solana_atomic_arbitrage.Base.{
  ℕ, zero, suc, ◌+◌, ◌≤◌, Bool, true, false, List, [], ◌∷◌, ◌++◌, length, All, arith,
}
use solana_atomic_arbitrage.Base.Bytes.{to_le_bytes}
use solana_atomic_arbitrage.Router.Constants
use solana_atomic_arbitrage.Router.Types.{AccountInfo, Instruction, Result, ok, ◌>>=◌, account}
use solana_atomic_arbitrage.Router.Cpi.Metas.{acct_all, InRange}

-- The loop over the bin arrays, from index `start` on.
unfoldable pub bin_array_slots : ℕ → ℕ → List (ℕ × Bool)
bin_array_slots start zero = []
bin_array_slots start (suc n) = (start, true) ∷ bin_array_slots (start + 1) n

abbrev pub swap2_slots : ℕ → ℕ → ℕ → ℕ → ℕ → ℕ → ℕ → ℕ → List (ℕ × Bool)
swap2_slots base token_x_mint token_y_mint token_x_program token_y_program user token_in token_out =
    (base + Constants.dlmm_lb_pair_rel, true)
    ∷ (base + Constants.dlmm_bitmap_rel, true)
    ∷ (base + Constants.dlmm_reserve_x_rel, true)
    ∷ (base + Constants.dlmm_reserve_y_rel, true)
    ∷ (token_in, true)
    ∷ (token_out, true)
    ∷ (token_x_mint, false)
    ∷ (token_y_mint, false)
    ∷ (base + Constants.dlmm_oracle_rel, true)
    ∷ (base + Constants.dlmm_host_fee_rel, true)
    ∷ (user, false)
    ∷ (token_x_program, false)
    ∷ (token_y_program, false)
    ∷ (base + Constants.dlmm_memo_rel, false)
    ∷ (base + Constants.dlmm_event_auth_rel, false)
    ∷ (base + Constants.dlmm_program_rel, false)
    ∷ []

unfoldable pub build_swap2 :
    List AccountInfo → ℕ → ℕ → ℕ → ℕ → ℕ → ℕ → ℕ → ℕ → ℕ → ℕ → Result Instruction
build_swap2 accounts base amount_in x_mint y_mint x_program y_program user token_in token_out
      count =
    do
      fixed ←
          acct_all accounts
            (swap2_slots base x_mint y_mint x_program y_program user token_in token_out)
      bins ← acct_all accounts (bin_array_slots (base + Constants.dlmm_bin_arrays_start_rel) count)
      program ← account accounts (base + Constants.dlmm_program_rel)
      ok (record {
        program_id = program.key;
        accounts = fixed ++ bins;
        bytes =
            Constants.dlmm_swap2_disc
            ++ (to_le_bytes 8 amount_in ++ (to_le_bytes 8 1 ++ to_le_bytes 4 0));
      })

pub bin_array_slots-InRange :
    (accounts : List AccountInfo) (start n : ℕ)
    → start + n ≤ length accounts
    → All (InRange accounts) (bin_array_slots start n)
unfolding bin_array_slots
bin_array_slots-InRange accounts start zero h = tt
bin_array_slots-InRange accounts start (suc n) h =
    (omega arith, bin_array_slots-InRange accounts (start + 1) n (omega arith))
