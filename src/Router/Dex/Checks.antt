-- ===== src/Router/Dex/Checks.antt =====
-- The forms of check that the section validators and the legacy routes are made of:
-- `if accounts[i].key != &K { return Err(arb_err(code)) }`, and the like for owners.
use solana_atomic_arbitrage.Base.{ℕ, ◌<◌, ◌≡◌, List, [], ◌∷◌, length, All, ◌/=◌, ◌&&◌, arith}
use solana_atomic_arbitrage.Router.Types.{
  Pubkey, AccountInfo, Result, ok, ◌>>=◌, ◌>>◌, fail_if, account,
}
use solana_atomic_arbitrage.Router.Error.{arb_err}
use solana_atomic_arbitrage.Router.Results.{
  Safe, safe_ok, >>=-Safe, >>-Safe, fail_if-Safe, account-Safe, >>=-eq-ok, >>-eq-ok, fail_if-eq-ok,
}

module _ (accounts : List AccountInfo) (i : ℕ) where
  unfoldable pub require_key : Pubkey → ℕ → Result (Unit {0})
  require_key key code = do a ← account accounts i; fail_if (a.key /= key) (arb_err code)

  unfoldable pub require_owner : Pubkey → ℕ → Result (Unit {0})
  require_owner key code = do a ← account accounts i; fail_if (a.owner /= key) (arb_err code)

  -- One of two keys, as for the two token programs.
  unfoldable pub require_either : Pubkey → Pubkey → ℕ → Result (Unit {0})
  require_either key other code = do
    a ← account accounts i
    fail_if (a.key /= key && a.key /= other) (arb_err code)

  pub require_key-Safe :
      (key : Pubkey) (code : ℕ) → i < length accounts → Safe (require_key key code)
  unfolding require_key
  require_key-Safe key code h = >>=-Safe (account-Safe accounts i h) (λ a _. fail_if-Safe _ _)

  pub require_owner-Safe :
      (key : Pubkey) (code : ℕ) → i < length accounts → Safe (require_owner key code)
  unfolding require_owner
  require_owner-Safe key code h = >>=-Safe (account-Safe accounts i h) (λ a _. fail_if-Safe _ _)

  pub require_either-Safe :
      (key other : Pubkey) (code : ℕ) → i < length accounts → Safe (require_either key other code)
  unfolding require_either
  require_either-Safe key other code h =
      >>=-Safe (account-Safe accounts i h) (λ a _. fail_if-Safe _ _)

  -- The account that passed the check.
  pub require_key-eq-ok :
      (key : Pubkey) (code : ℕ)
      → require_key key code ≡ ok tt
      → (a : AccountInfo) × (account accounts i ≡ ok a) × (a.key ≡ key)
  unfolding require_key
  require_key-eq-ok key code h =
      let (a, found, passed) = >>=-eq-ok (account accounts i) _ h in
      let same = fail_if-eq-ok (a.key /= key) _ passed in (a, found, ground arith)

-- A row of key checks: index, expected key, error code.
abbrev pub KeyCheck : Type 0
KeyCheck = ℕ × Pubkey × ℕ

unfoldable pub require_keys : List AccountInfo → List KeyCheck → Result (Unit {0})
require_keys accounts [] = ok tt
require_keys accounts ((i, key, code) ∷ checks) = do
  require_key accounts i key code
  require_keys accounts checks

abbrev pub CheckInRange : List AccountInfo → KeyCheck → Type 0
CheckInRange accounts (i, _, _) = i < length accounts

-- The account of a check has the expected key.
abbrev pub CheckHolds : List AccountInfo → KeyCheck → Type 0
CheckHolds accounts (i, key, _) = (a : AccountInfo) × (account accounts i ≡ ok a) × (a.key ≡ key)

pub require_keys-Safe :
    (accounts : List AccountInfo) (checks : List KeyCheck)
    → All (CheckInRange accounts) checks
    → Safe (require_keys accounts checks)
unfolding require_keys
require_keys-Safe accounts [] h = safe_ok tt
require_keys-Safe accounts ((i, key, code) ∷ checks) (h, hs) =
    >>-Safe (require_key-Safe accounts i key code h) (require_keys-Safe accounts checks hs)

pub require_keys-CheckHolds :
    (accounts : List AccountInfo) (checks : List KeyCheck)
    → require_keys accounts checks ≡ ok tt
    → All (CheckHolds accounts) checks
unfolding require_keys
require_keys-CheckHolds accounts [] h = tt
require_keys-CheckHolds accounts ((i, key, code) ∷ checks) h =
    let (one, rest) = >>-eq-ok (require_key accounts i key code) _ h in
    (require_key-eq-ok accounts i key code one, require_keys-CheckHolds accounts checks rest)
