-- ===== src/Client/Simulator/Diagnostic.antt =====
-- src/simulator/mod.rs, `diagnostic_zero_slippage_sim`: the rewrite of the instruction data of a
-- transaction. An instruction is its program's key and its data.
pub mod Effect
use solana_atomic_arbitrage.Base.{
  ℕ, ◌+◌, ◌-◌, ◌%◌, Bool, true, false, ◌||◌, List, [], ◌∷◌, ◌++◌, Option, none, some, length, take,
  drop, replicate, leb, ◌==◌, if◌then◌else◌,
}
use solana_atomic_arbitrage.Client.Constants
use solana_atomic_arbitrage.Router.Types.{Pubkey}

-- `data[off..off + len].fill(0)` in range.
abbrev pub zero_fill : List ℕ → ℕ → ℕ → List ℕ
zero_fill bytes off len = take off bytes ++ (replicate len 0 ++ drop (off + len) bytes)

-- The new data, and whether it was changed.
unfoldable pub zero_min_out_direct : List ℕ → List ℕ × Bool
zero_min_out_direct bytes =
    if leb 24 (length bytes) then (zero_fill bytes 16 8, true) else (bytes, false)

unfoldable pub zero_min_out_onchain : List ℕ → List ℕ × Bool
zero_min_out_onchain bytes =
    if leb 8 (length bytes) then (zero_fill bytes (length bytes - 8) 8, true) else (bytes, false)

-- The choice by program id, for one instruction.
unfoldable pub zero_instruction : Pubkey → Pubkey × List ℕ → (Pubkey × List ℕ) × Bool
zero_instruction onchain_program_id (pid, bytes) =
    let zeroed =
      if pid == onchain_program_id
      then zero_min_out_onchain bytes
      else if (pid == Constants.dlmm_program)
          || ((pid == Constants.pumpfun_amm_program)
              || (pid == Constants.pumpfun_bonding_curve_program))
      then zero_min_out_direct bytes
      else (bytes, false) in
    ((pid, zeroed.0), zeroed.1)

-- The loop over the instructions, with the 8-bit count `modified`.
unfoldable pub zero_all : Pubkey → List (Pubkey × List ℕ) → ℕ → List (Pubkey × List ℕ) × ℕ
zero_all onchain_program_id [] modified = ([], modified)
zero_all onchain_program_id (ix ∷ ixs) modified =
    let (ix', zeroed) = zero_instruction onchain_program_id ix in
    let (ixs', total) =
      zero_all onchain_program_id ixs (if zeroed then (modified + 1) % 256 else modified) in
    (ix' ∷ ixs', total)

-- The rewritten instructions; `none` is the error that no swap instruction was found.
unfoldable pub diagnostic_rewrite :
    Pubkey → List (Pubkey × List ℕ) → Option (List (Pubkey × List ℕ))
diagnostic_rewrite onchain_program_id ixs =
    let (ixs', modified) = zero_all onchain_program_id ixs 0 in
    if modified == 0 then none else some ixs'
