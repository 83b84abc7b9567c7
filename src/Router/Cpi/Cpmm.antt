-- ===== src/Router/Cpi/Cpmm.antt =====
-- programs/arbitrage/src/cpi/cpmm.rs: the Raydium CPMM `swap`.
use solana_atomic_arbitrage.Base.{ℕ, ◌+◌, Bool, true, false, List, [], ◌∷◌, ◌++◌}
use solana_atomic_arbitrage.Base.Bytes.{to_le_bytes}
use solana_atomic_arbitrage.Router.Constants
use solana_atomic_arbitrage.Router.Types.{AccountInfo, Instruction, Result, ok, ◌>>=◌, account}
use solana_atomic_arbitrage.Router.Cpi.Metas.{acct_all}

abbrev pub swap_slots : ℕ → ℕ → ℕ → ℕ → ℕ → ℕ → ℕ → ℕ → ℕ → List (ℕ × Bool)
swap_slots base payer input_mint output_mint input_ata output_ata input_prog output_prog memo =
    (payer, true)
    ∷ (base + 1, false)
    ∷ (base + 2, false)
    ∷ (base + 3, true)
    ∷ (input_ata, true)
    ∷ (output_ata, true)
    ∷ (base + 6, true)
    ∷ (base + 7, true)
    ∷ (input_mint, false)
    ∷ (output_mint, false)
    ∷ (input_prog, false)
    ∷ (output_prog, false)
    ∷ (memo, false)
    ∷ []

unfoldable pub build_swap :
    List AccountInfo → ℕ → ℕ → ℕ → ℕ → ℕ → ℕ → ℕ → ℕ → ℕ → ℕ → ℕ → Result Instruction
build_swap accounts base amount_in min_out payer in_mint out_mint in_ata out_ata in_prog out_prog
      memo =
    do
      metas ←
          acct_all accounts
            (swap_slots base payer in_mint out_mint in_ata out_ata in_prog out_prog memo)
      program ← account accounts base
      ok (record {
        program_id = program.key;
        accounts = metas;
        bytes = Constants.cpmm_swap_disc ++ (to_le_bytes 8 amount_in ++ to_le_bytes 8 min_out);
      })
