-- ===== src/Client/Simulator/Token/Owner.antt =====
-- src/simulator/mod.rs, `detect_token_program`: its cache against the owners of the mints, which do
-- not change.
use solana_atomic_arbitrage.Base.{
  ==→ne, true, ◌≢◌, subst, ◌≡◌, refl, ap, sym, ◌⊎◌, [], ◌∷◌, Option, none, some, Option-cases,
  Bool-cases, All, inl, inr, ◌==◌, ==→eq, arith,
}
use solana_atomic_arbitrage.Client.Simulator.Token.{
  ProgramCache, cached_program, program_of_owner, detect_token_program,
}
use solana_atomic_arbitrage.Client.Constants
use solana_atomic_arbitrage.Router.Types.{Pubkey}

-- The token program that belongs to an owner: Token-2022 for itself, the token program for any other.
abbrev pub RightProgram : Option Pubkey → Pubkey → Type 0
RightProgram owned tp =
    ((owned ≡ some Constants.token22_program) × (tp ≡ Constants.token22_program))
    ⊎ ((owner : Pubkey) × (owned ≡ some owner)
        × (owner ≢ Constants.token22_program)
        × (tp ≡ Constants.token_program))

-- An entry tells the program of its mint's owner.
abbrev pub Right : (Pubkey → Option Pubkey) → Pubkey × Pubkey → Type 0
Right owner_of (mint, tp) = RightProgram (owner_of mint) tp

program_of_owner-RightProgram :
    (owner : Pubkey) → RightProgram (some owner) (program_of_owner owner)
unfolding program_of_owner
program_of_owner-RightProgram owner = elim (Bool-cases (owner == Constants.token22_program)) [
  | inl same ↦ rw same (inl (ap some (==→eq owner Constants.token22_program same), refl))
  | inr other ↦ rw other (inr (owner, refl, ==→ne owner Constants.token22_program other, refl))
]

cached_program-Right :
    (owner_of : Pubkey → Option Pubkey) (mint tp : Pubkey) (cache : ProgramCache)
    → All (Right owner_of) cache
    → cached_program mint cache ≡ some tp
    → Right owner_of (mint, tp)
unfolding cached_program
cached_program-Right owner_of mint tp [] h found = cc
cached_program-Right owner_of mint tp ((held, tp') ∷ rest) (right, hs) found =
    elim (Bool-cases (held == mint)) [
      | inl hit ↦
          let same_tp : tp' ≡ tp = ground arith in
          subst (λ t. Right owner_of (mint, t)) same_tp
            (subst (λ m. Right owner_of (m, tp')) (==→eq held mint hit) right)
      | inr miss ↦ cached_program-Right owner_of mint tp rest hs (ground arith)
    ]

cached_program-none :
    (mint : Pubkey) (cache : ProgramCache)
    → cached_program mint cache ≡ none
    → All (λ entry. entry.0 ≢ mint) cache
unfolding cached_program
cached_program-none mint [] gone = tt
cached_program-none mint ((held, tp) ∷ rest) gone = elim (Bool-cases (held == mint)) [
  | inl hit ↦ absurd (impossible hit)
  | inr miss ↦ (==→ne held mint miss, cached_program-none mint rest (ground arith))
]
  where
    impossible : (held == mint) ≡ true → ⊥
    impossible hit = ground arith

-- If the cached token programs are those of their mints' owners, Token-2022 for a mint of
-- Token-2022 and the token program for any other, a lookup keeps them so. It returns the program
-- of the mint's owner, or none, the latter only where the mint is not cached and the node does not
-- know it.
pub detect_token_program-All :
    (owner_of : Pubkey → Option Pubkey) (mint : Pubkey) (cache : ProgramCache)
    → All (Right owner_of) cache
    → All (Right owner_of) (detect_token_program owner_of mint cache).0
      × (((detect_token_program owner_of mint cache).1 ≡ none)
            × (All (λ entry. entry.0 ≢ mint) cache)
            × (owner_of mint ≡ none)
          ⊎ ((tp : Pubkey) × ((detect_token_program owner_of mint cache).1 ≡ some tp)
              × Right owner_of (mint, tp)))
unfolding detect_token_program
detect_token_program-All owner_of mint cache h = elim (Option-cases (cached_program mint cache)) [
  | inr (tp, found) ↦
      rw (found, detect_token_program)
        (h, inr (tp, refl, cached_program-Right owner_of mint tp cache h found))
  | inl missing ↦
      rw (missing, detect_token_program)
        (elim (Option-cases (owner_of mint)) [
          | inl gone ↦ rw gone (h, inl (refl, cached_program-none mint cache missing, refl))
          | inr (owner, at) ↦
              let right = program_of_owner-RightProgram owner in
              let entry : Right owner_of (mint, program_of_owner owner) =
                subst (λ owned. RightProgram owned (program_of_owner owner)) (sym at) right in
              rw at ((entry, h), inr (program_of_owner owner, refl, right))
        ])
]
