-- ===== src/Router/Cpi/Whirlpool.antt =====
-- programs/arbitrage/src/cpi/whirlpool.rs: the Orca Whirlpool `swap`.
use solana_atomic_arbitrage.Base.{
  ℕ, zero, suc, ◌+◌, ◌-◌, ◌≤◌, Bool, true, false, List, [], ◌∷◌, ◌++◌, min, length, if◌then◌else◌,
  arith,
}
use solana_atomic_arbitrage.Base.Bytes.{to_le_bytes}
use solana_atomic_arbitrage.Base.Checked.{u128_mod}
use solana_atomic_arbitrage.Router.Constants
use solana_atomic_arbitrage.Router.Types.{
  AccountInfo, AccountMeta, Instruction, Result, ok, ◌>>=◌, account, writable, readonly,
}
use solana_atomic_arbitrage.Router.Results.{Safe, safe_ok, >>=-Safe, account-Safe}

-- The loop over the tick arrays: writable, never signers.
unfoldable pub tick_metas : List AccountInfo → ℕ → ℕ → Result (List AccountMeta)
tick_metas accounts start zero = ok []
tick_metas accounts start (suc n) = do
  a ← account accounts start
  rest ← tick_metas accounts (start + 1) n
  ok (writable a.key false ∷ rest)

abbrev price_limit : Bool → ℕ
price_limit a_to_b = if a_to_b then u128_mod - 1 else 0

-- `token_prog_b_idx` is taken and not used, as in the source.
unfoldable pub build_swap :
    List AccountInfo → ℕ → ℕ → ℕ → ℕ → Bool → ℕ → ℕ → ℕ → ℕ → Result Instruction
build_swap accounts base tick_count amount_in min_out a_to_b prog_a prog_b in_ata out_ata = do
  token_program ← account accounts prog_a
  authority ← account accounts (base + 1)
  pool ← account accounts (base + 2)
  input ← account accounts in_ata
  vault_a ← account accounts (base + 4)
  output ← account accounts out_ata
  vault_b ← account accounts (base + 6)
  ticks ← tick_metas accounts (base + 7) (min tick_count 3)
  oracle ← account accounts (base + 10)
  program ← account accounts base
  ok (record {
    program_id = program.key;
    accounts =
        readonly token_program.key false
        ∷ readonly authority.key true
        ∷ writable pool.key false
        ∷ writable input.key false
        ∷ writable vault_a.key false
        ∷ writable output.key false
        ∷ writable vault_b.key false
        ∷ (ticks ++ readonly oracle.key false ∷ []);
    bytes =
        Constants.whirlpool_swap_disc
        ++ (to_le_bytes 8 amount_in
            ++ (to_le_bytes 8 min_out
                ++ (to_le_bytes 16 (price_limit a_to_b) ++ 1 ∷ (if a_to_b then 1 else 0) ∷ [])));
  })

pub tick_metas-Safe :
    (accounts : List AccountInfo) (start n : ℕ)
    → start + n ≤ length accounts
    → Safe (tick_metas accounts start n)
unfolding tick_metas
tick_metas-Safe accounts start zero h = safe_ok []
tick_metas-Safe accounts start (suc n) h =
    >>=-Safe (account-Safe accounts start (omega arith))
      λ a _. >>=-Safe (tick_metas-Safe accounts (start + 1) n (omega arith)) (λ rest _. safe_ok _)
