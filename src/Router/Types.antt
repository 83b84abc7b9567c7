-- ===== src/Router/Types.antt =====
-- What the on-chain program takes from the Solana SDK: accounts, instructions, errors, and the two
-- services of the runtime that it calls.
use solana_atomic_arbitrage.Base.{
  ℕ, ◌≡◌, Bool, true, false, List, Option, none, some, length, get_elem?,
}
use solana_atomic_arbitrage.Base.Bytes.{to_be_bytes}
use mathlib.Core.List.{[]}

abbrev pub Pubkey : Type 0
Pubkey = ℕ

-- `Pubkey::as_ref`: the 32 bytes of a key.
unfoldable pub as_ref : Pubkey → List ℕ
unfolding to_be_bytes
as_ref key = to_be_bytes 32 key []

-- An account as a program sees it; `bytes` is its data.
pub record AccountInfo : Type 0 where
  pub key : Pubkey
  pub owner : Pubkey
  pub lamports : ℕ
  pub bytes : List ℕ
  pub is_signer : Bool
  pub is_writable : Bool

pub record AccountMeta : Type 0 where
  pub pubkey : Pubkey
  pub is_signer : Bool
  pub is_writable : Bool

pub record Instruction : Type 0 where
  pub program_id : Pubkey
  pub accounts : List AccountMeta
  pub bytes : List ℕ

pub data ProgramError : Type 0 where
  invalid_instruction_data invalid_account_data : ProgramError
  missing_required_signature arithmetic_overflow : ProgramError
  custom : ℕ → ProgramError

-- `panic` is an index out of bounds, which aborts the program.
pub data Result {ℓ} (A : Type ℓ) : Type ℓ where
  ok : A → Result A
  err : ProgramError → Result A
  panic : Result A

infixl 5 ◌>>=◌ ◌>>◌
unfoldable pub ◌>>=◌ {ℓ κ} : {A : Type ℓ} {B : Type κ} → Result A → (A → Result B) → Result B
ok value >>= next = next value
err code >>= next = err code
panic >>= next = panic

abbrev pub ◌>>◌ {ℓ} : {B : Type ℓ} → Result (Unit {0}) → Result B → Result B
m >> k = m >>= λ _. k

-- `if b { return Err(e) }`
unfoldable pub fail_if : Bool → ProgramError → Result (Unit {0})
fail_if true e = err e
fail_if false e = ok tt

-- `.ok_or(e)?`
unfoldable pub ok_or {ℓ} : {A : Type ℓ} → Option A → ProgramError → Result A
ok_or (some a) e = ok a
ok_or none e = err e

-- The runtime's services: PDA derivation, and the call of another program, which may change the
-- accounts. `none` is a failed call.
pub record Runtime : Type 0 where
  pub find_program_address : List (List ℕ) → Pubkey → Pubkey
  pub invoke : Instruction → List AccountInfo → Option (List AccountInfo)

-- A call keeps the slice of accounts as long as it was.
abbrev pub KeepsLength : Runtime → Type 0
KeepsLength rt =
    (ix : Instruction) (before after : List AccountInfo)
    → rt.invoke ix before ≡ some after
    → length after ≡ length before

-- `accounts[i]`
unfoldable pub account : List AccountInfo → ℕ → Result AccountInfo
account accounts i = elim (get_elem? accounts i) [ some a ↦ ok a | none ↦ panic ]

-- `AccountMeta::new` and `AccountMeta::new_readonly`.
abbrev pub writable : Pubkey → Bool → AccountMeta
writable key signer = record { pubkey = key; is_signer = signer; is_writable = true }

abbrev pub readonly : Pubkey → Bool → AccountMeta
readonly key signer = record { pubkey = key; is_signer = signer; is_writable = false }
