-- ===== src/Router/Entry.antt =====
-- programs/arbitrage/src/lib.rs: `process_instruction`, which dispatches on the first eight bytes.
pub mod Safety
pub mod Profit
use solana_atomic_arbitrage.Base.{
  ℕ, Bool, true, false, List, [], ◌∷◌, length, ltb, ◌==◌, ◌&&◌, if◌then◌else◌,
}
use solana_atomic_arbitrage.Router.Slices.{slice_at}
use solana_atomic_arbitrage.Router.Constants
use solana_atomic_arbitrage.Router.Error.{arb_err, arb_bad_discriminator}
use solana_atomic_arbitrage.Router.Types.{
  AccountInfo, Runtime, Result, err, ◌>>=◌, ◌>>◌, fail_if, invalid_instruction_data,
}
use solana_atomic_arbitrage.Router.Orchestrate
use solana_atomic_arbitrage.Router.Legacy.PumpToDlmm
use solana_atomic_arbitrage.Router.Legacy.DlmmToPump

-- Equality of byte strings.
unfoldable pub same_bytes : List ℕ → List ℕ → Bool
same_bytes [] [] = true
same_bytes [] (y ∷ ys) = false
same_bytes (x ∷ xs) [] = false
same_bytes (x ∷ xs) (y ∷ ys) = x == y && same_bytes xs ys

unfoldable pub dispatch : Runtime → List AccountInfo → List ℕ → List ℕ → Result (List AccountInfo)
dispatch rt accounts bytes disc =
    if same_bytes disc Constants.route_pump_to_dlmm_disc
    then PumpToDlmm.handle rt accounts bytes
    else if same_bytes disc Constants.route_dlmm_to_pump_disc
    then DlmmToPump.handle rt accounts bytes
    else if same_bytes disc Constants.route_disc
    then Orchestrate.handle rt accounts bytes
    else err (arb_err arb_bad_discriminator)

unfoldable pub process_instruction : Runtime → List AccountInfo → List ℕ → Result (List AccountInfo)
process_instruction rt accounts bytes = do
  fail_if (ltb (length bytes) 8) invalid_instruction_data
  disc ← slice_at bytes 0 8
  dispatch rt accounts bytes disc
