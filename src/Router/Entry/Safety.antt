-- ===== src/Router/Entry/Safety.antt =====
-- programs/arbitrage/src/lib.rs: indices into the data and the account list, from the entry point on.
use solana_atomic_arbitrage.Base.{ltb, length, ltb→le, ℕ, ◌≢◌, List, Bool-cases, inl, inr}
use solana_atomic_arbitrage.Router.Constants
use solana_atomic_arbitrage.Router.Types.{
  AccountInfo, Runtime, KeepsLength, panic, fail_if, invalid_instruction_data,
}
use solana_atomic_arbitrage.Router.Slices.{slice_at-Safe}
use solana_atomic_arbitrage.Router.Results.{
  Safe, safe_err, Safe-ne, >>=-Safe, fail_if-Safe, fail_if-eq-ok,
}
use solana_atomic_arbitrage.Router.Legacy.Safety.{pump_to_dlmm-Safe, dlmm_to_pump-Safe}
use solana_atomic_arbitrage.Router.Orchestrate.Safety.{handle-Safe}
use solana_atomic_arbitrage.Router.Entry.{same_bytes, dispatch, process_instruction}

dispatch-Safe :
    (rt : Runtime) (accounts : List AccountInfo) (bytes disc : List ℕ)
    → KeepsLength rt
    → Safe (dispatch rt accounts bytes disc)
unfolding dispatch
dispatch-Safe rt accounts bytes disc keeps =
    elim (Bool-cases (same_bytes disc Constants.route_pump_to_dlmm_disc)) [
      | inl e ↦ rw e (pump_to_dlmm-Safe rt accounts bytes keeps)
      | inr e ↦ rw e (elim (Bool-cases (same_bytes disc Constants.route_dlmm_to_pump_disc)) [
        | inl e' ↦ rw e' (dlmm_to_pump-Safe rt accounts bytes keeps)
        | inr e' ↦ rw e' (elim (Bool-cases (same_bytes disc Constants.route_disc)) [
          | inl e'' ↦ rw e'' (handle-Safe rt accounts bytes keeps)
          | inr e'' ↦ rw e'' (safe_err _)
        ])
      ])
    ]

-- Where a call keeps the length of the account list, for every account list and all instruction
-- data the program ends by a result or an error code: no index into the account list or the data,
-- and no slice of instruction or account data, is out of bounds.
pub process_instruction-ne-panic :
    (rt : Runtime) (accounts : List AccountInfo) (bytes : List ℕ)
    → KeepsLength rt
    → process_instruction rt accounts bytes ≢ panic
unfolding process_instruction
process_instruction-ne-panic rt accounts bytes keeps = Safe-ne (
    >>=-Safe {m = fail_if (ltb (length bytes) 8) invalid_instruction_data} (fail_if-Safe _ _)
      λ u sized.
        >>=-Safe
          (slice_at-Safe bytes 0 8 (ltb→le _ _ (fail_if-eq-ok _ invalid_instruction_data sized)))
          λ disc _. dispatch-Safe rt accounts bytes disc keeps)
