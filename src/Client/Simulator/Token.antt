-- ===== src/Client/Simulator/Token.antt =====
-- src/simulator/mod.rs and src/executor/atomic/helpers.rs: the token and system instructions, and
-- the cache of the token program of a mint. The map is an association list, newest entry first.
pub mod Owner
use solana_atomic_arbitrage.Base.{
  ℕ, true, false, List, [], ◌∷◌, ◌++◌, Option, none, some, ◌==◌, if◌then◌else◌,
}
use solana_atomic_arbitrage.Base.Bytes.{to_le_bytes}
use solana_atomic_arbitrage.Client.Constants
use solana_atomic_arbitrage.Client.Route.Sections.{system_program}
use solana_atomic_arbitrage.Router.Types.{Pubkey, Instruction, writable, readonly}

unfoldable pub create_ata_idempotent_ix_v2 :
    Pubkey → Pubkey → Pubkey → Pubkey → Pubkey → Instruction
create_ata_idempotent_ix_v2 payer ata wallet mint token_program = record {
  program_id = Constants.ata_program;
  accounts =
      writable payer true
      ∷ writable ata false
      ∷ readonly wallet false
      ∷ readonly mint false
      ∷ readonly system_program false
      ∷ readonly token_program false
      ∷ readonly Constants.sysvar_rent false
      ∷ [];
  bytes = 1 ∷ [];
}

unfoldable pub system_transfer_ix : Pubkey → Pubkey → ℕ → Instruction
system_transfer_ix from to lamports = record {
  program_id = system_program;
  accounts = writable from true ∷ writable to false ∷ [];
  bytes = to_le_bytes 4 2 ++ to_le_bytes 8 lamports;
}

unfoldable pub sync_native_ix : Pubkey → Pubkey → Instruction
sync_native_ix wsol_ata token_program = record {
  program_id = token_program;
  accounts = writable wsol_ata false ∷ [];
  bytes = 17 ∷ [];
}

unfoldable pub close_wsol_ata_ix : Pubkey → Pubkey → Pubkey → Instruction
close_wsol_ata_ix wsol_ata wallet token_program = record {
  program_id = token_program;
  accounts = writable wsol_ata false ∷ writable wallet false ∷ readonly wallet false ∷ [];
  bytes = 9 ∷ [];
}

-- The static TOKEN_PROGRAM_CACHE.
abbrev pub ProgramCache : Type 0
ProgramCache = List (Pubkey × Pubkey)

unfoldable pub cached_program : Pubkey → ProgramCache → Option Pubkey
cached_program mint [] = none
cached_program mint ((held, tp) ∷ rest) = if held == mint then some tp else cached_program mint rest

-- The program of a mint's owner.
unfoldable pub program_of_owner : Pubkey → Pubkey
program_of_owner owner =
    if owner == Constants.token22_program
    then Constants.token22_program
    else Constants.token_program

-- `detect_token_program`; `owner_of` is the owner field of the account that the node returns.
unfoldable pub detect_token_program :
    (Pubkey → Option Pubkey) → Pubkey → ProgramCache → ProgramCache × Option Pubkey
detect_token_program owner_of mint cache = elim (cached_program mint cache) [
  | some tp ↦ (cache, some tp)
  | none ↦ elim (owner_of mint) [
    | none ↦ (cache, none)
    | some owner ↦ ((mint, program_of_owner owner) ∷ cache, some (program_of_owner owner))
  ]
]
