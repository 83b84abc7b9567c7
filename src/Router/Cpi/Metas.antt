-- ===== src/Router/Cpi/Metas.antt =====
-- The account lists of the CPI builders: cpi/pump_swap.rs, `build_meta`, and the `acct` helper of
-- cpi/cpmm.rs and cpi/dlmm.rs.
use solana_atomic_arbitrage.Base.{
  ℕ, zero, suc, ◌+◌, ◌<◌, ◌≤◌, Bool, List, [], ◌∷◌, length, map, All, if◌then◌else◌, arith,
}
use solana_atomic_arbitrage.Router.Types.{
  AccountInfo, AccountMeta, Result, ok, ◌>>=◌, account, writable, readonly,
}
use solana_atomic_arbitrage.Router.Results.{Safe, safe_ok, >>=-Safe, account-Safe}

abbrev pub acct_meta : AccountInfo → Bool → AccountMeta
acct_meta a is_writable =
    if is_writable then writable a.key a.is_signer else readonly a.key a.is_signer

-- `acct(accounts, idx, writable)`
unfoldable pub acct : List AccountInfo → ℕ → Bool → Result AccountMeta
acct accounts idx is_writable = do a ← account accounts idx; ok (acct_meta a is_writable)

-- The metas of a list of absolute indices, each with its writable flag.
unfoldable pub acct_all : List AccountInfo → List (ℕ × Bool) → Result (List AccountMeta)
acct_all accounts [] = ok []
acct_all accounts ((idx, is_writable) ∷ slots) = do
  m ← acct accounts idx is_writable
  ms ← acct_all accounts slots
  ok (m ∷ ms)

abbrev shift : ℕ → ℕ × Bool → ℕ × Bool
shift base (rel, is_writable) = (base + rel, is_writable)

-- `build_meta(accounts, pump_base, slots)`: the indices are relative to the section.
unfoldable pub build_meta : List AccountInfo → ℕ → List (ℕ × Bool) → Result (List AccountMeta)
build_meta accounts pump_base slots = acct_all accounts (map (shift pump_base) slots)

-- The loop over the remaining accounts: each keeps the writable flag that the client set.
unfoldable pub remaining_metas : List AccountInfo → ℕ → ℕ → Result (List AccountMeta)
remaining_metas accounts start zero = ok []
remaining_metas accounts start (suc n) = do
  a ← account accounts start
  rest ← remaining_metas accounts (start + 1) n
  ok (acct_meta a a.is_writable ∷ rest)

abbrev pub InRange : List AccountInfo → ℕ × Bool → Type 0
InRange accounts (idx, _) = idx < length accounts

pub acct_all-Safe :
    (accounts : List AccountInfo) (slots : List (ℕ × Bool))
    → All (InRange accounts) slots
    → Safe (acct_all accounts slots)
unfolding acct_all acct
acct_all-Safe accounts [] h = safe_ok []
acct_all-Safe accounts ((idx, w) ∷ slots) (h, hs) =
    >>=-Safe (>>=-Safe (account-Safe accounts idx h) (λ a _. safe_ok _))
      λ m _. >>=-Safe (acct_all-Safe accounts slots hs) (λ ms _. safe_ok _)

pub build_meta-Safe :
    (accounts : List AccountInfo) (base : ℕ) (slots : List (ℕ × Bool))
    → All (InRange accounts) (map (shift base) slots)
    → Safe (build_meta accounts base slots)
unfolding build_meta
build_meta-Safe accounts base slots h = acct_all-Safe accounts (map (shift base) slots) h

pub remaining_metas-Safe :
    (accounts : List AccountInfo) (start n : ℕ)
    → start + n ≤ length accounts
    → Safe (remaining_metas accounts start n)
unfolding remaining_metas
remaining_metas-Safe accounts start zero h = safe_ok []
remaining_metas-Safe accounts start (suc n) h =
    >>=-Safe (account-Safe accounts start (omega arith)) λ a _.
      >>=-Safe (remaining_metas-Safe accounts (start + 1) n (omega arith)) (λ rest _. safe_ok _)
