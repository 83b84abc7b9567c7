-- ===== src/Client/Simulator/Dlmm.antt =====
-- src/simulator/dlmm/mod.rs: the DLMM `swap2` builder and the estimate of a swap through the bins.
use solana_atomic_arbitrage.Base.{ℕ, true, false, List, [], ◌∷◌, ◌++◌, Option, none, some}
use solana_atomic_arbitrage.Base.Bytes.{to_le_bytes}
use solana_atomic_arbitrage.Client.Constants
use solana_atomic_arbitrage.Client.Route.Sections.{writable_all}
use solana_atomic_arbitrage.Router.Types.{Pubkey, AccountMeta, Instruction, writable, readonly}

-- The account arguments of the builder, the bin arrays and the two optional ones apart.
pub record Swap2Keys : Type 0 where
  pub user : Pubkey
  pub lb_pair : Pubkey
  pub reserve_x : Pubkey
  pub reserve_y : Pubkey
  pub user_token_in : Pubkey
  pub user_token_out : Pubkey
  pub token_x_mint : Pubkey
  pub token_y_mint : Pubkey
  pub oracle : Pubkey
  pub event_authority : Pubkey
  pub token_x_program : Pubkey
  pub token_y_program : Pubkey
  pub memo_program : Pubkey
  pub event_program : Pubkey

-- `option.unwrap_or(&dlmm)`
abbrev pub or_dlmm : Option Pubkey → Pubkey
or_dlmm none = Constants.dlmm_program
or_dlmm (some key) = key

unfoldable pub swap2_metas : Swap2Keys → Option Pubkey → Option Pubkey → List AccountMeta
swap2_metas k bitmap_extension host_fee_in =
    writable k.lb_pair false
    ∷ writable (or_dlmm bitmap_extension) false
    ∷ writable k.reserve_x false
    ∷ writable k.reserve_y false
    ∷ writable k.user_token_in false
    ∷ writable k.user_token_out false
    ∷ readonly k.token_x_mint false
    ∷ readonly k.token_y_mint false
    ∷ writable k.oracle false
    ∷ writable (or_dlmm host_fee_in) false
    ∷ readonly k.user true
    ∷ readonly k.token_x_program false
    ∷ readonly k.token_y_program false
    ∷ readonly k.memo_program false
    ∷ readonly k.event_authority false
    ∷ readonly k.event_program false
    ∷ []

unfoldable pub build_dlmm_swap2_ix :
    Swap2Keys → List Pubkey → ℕ → ℕ → Option Pubkey → Option Pubkey → Instruction
build_dlmm_swap2_ix k bin_arrays amount_in min_amount_out bitmap_extension host_fee_in = record {
  program_id = Constants.dlmm_program;
  accounts = swap2_metas k bitmap_extension host_fee_in ++ writable_all bin_arrays;
  bytes =
      Constants.dlmm_swap2_discriminator
      ++ (to_le_bytes 8 amount_in ++ (to_le_bytes 8 min_amount_out ++ to_le_bytes 4 0));
}
