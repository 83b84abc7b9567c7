-- ===== src/Client/Route/Accepted.antt =====
-- The client's routes (src/executor/atomic) against the checks of the router's handlers: the accounts
-- that the runtime loads for an instruction.
pub mod Address
pub mod PumpToDlmm
pub mod DlmmToPump
pub mod Routes
pub mod Generic
use solana_atomic_arbitrage.Base.{
  ℕ, suc, zero, ◌+◌, ◌≤◌, ◌<◌, ◌≡◌, ◌∙◌, sym, ap, subst, refl, Bool, true, false, not, Bool-cases,
  List, [], ◌∷◌, ◌++◌, map, length, get_elem?, Option, some, none, inl, inr, length-append,
  length-map, ◌/=◌, ltb, All, if◌then◌else◌, arith,
}
use solana_atomic_arbitrage.Router.Constants
use mathlib.Core.Option.{some-injective}
use solana_atomic_arbitrage.Router.Types.{
  Pubkey, AccountInfo, AccountMeta, Result, ok, ◌>>=◌, ◌>>◌, fail_if, account, Runtime,
}
use solana_atomic_arbitrage.Router.Dex.Checks.{require_key, require_keys, KeyCheck}

-- The runtime passes the accounts of an instruction in their order, with the flags it asks for.
pub data Loaded : List AccountMeta → List AccountInfo → Type 0 where
  loaded_nil : Loaded [] []
  loaded_cons :
      (m : AccountMeta) (a : AccountInfo) {ms : List AccountMeta} {accounts : List AccountInfo}
      → a.key ≡ m.pubkey
      → a.is_signer ≡ m.is_signer
      → Loaded ms accounts
      → Loaded (m ∷ ms) (a ∷ accounts)

pub Loaded-length :
    {ms : List AccountMeta} {accounts : List AccountInfo}
    → Loaded ms accounts
    → length accounts ≡ length ms
Loaded-length loaded_nil = refl
Loaded-length (loaded_cons m a k s rest) = ap suc (Loaded-length rest)

-- The account that stands where the client has put a meta.
pub Loaded-account :
    {ms : List AccountMeta} {accounts : List AccountInfo}
    → Loaded ms accounts
    → (i : ℕ) {m : AccountMeta} → get_elem? ms i ≡ some m
    → (a : AccountInfo) × (account accounts i ≡ ok a)
      × (a.key ≡ m.pubkey)
      × (a.is_signer ≡ m.is_signer)
unfolding account
Loaded-account loaded_nil i h = cc
Loaded-account (loaded_cons m a k s rest) zero {m = m'} h =
    let e = some-injective m m' h in
    (a, refl, k ∙ ap (λ x. x.pubkey) e, s ∙ ap (λ x. x.is_signer) e)
Loaded-account (loaded_cons m a k s rest) (suc i) h = Loaded-account rest i h

pub require_key-Loaded :
    {ms : List AccountMeta} {accounts : List AccountInfo}
    → Loaded ms accounts
    → (i : ℕ) (key : Pubkey) (code : ℕ) {m : AccountMeta} → get_elem? ms i ≡ some m
    → m.pubkey ≡ key
    → require_key accounts i key code ≡ ok tt
unfolding require_key ◌>>=◌ fail_if
require_key-Loaded l i key code h e =
    let (a, found, same, _) = Loaded-account l i h in
    let passed = same_key a.key key (same ∙ e) in rw (found, passed) refl
  where
    same_key : (m n : ℕ) → m ≡ n → (m /= n) ≡ false
    same_key m n h = ground arith

-- The meta of a check has the expected key.
abbrev pub MetaHolds : List AccountMeta → KeyCheck → Type 0
MetaHolds ms (i, key, _) = (m : AccountMeta) × (get_elem? ms i ≡ some m) × (m.pubkey ≡ key)

pub require_keys-Loaded :
    {ms : List AccountMeta} {accounts : List AccountInfo} (l : Loaded ms accounts)
    → (checks : List KeyCheck) → All (MetaHolds ms) checks
    → require_keys accounts checks ≡ ok tt
unfolding require_keys ◌>>=◌
require_keys-Loaded l [] h = refl
require_keys-Loaded l ((i, key, code) ∷ checks) (h, hs) =
    let (m, at_i, same) = h in
    rw (require_key-Loaded l i key code at_i same) (require_keys-Loaded l checks hs)
