-- ===== src/Router/Results.antt =====
-- Reasoning about results: inversion of a successful chain, and chains that never panic.
use solana_atomic_arbitrage.Base.{
  ℕ, ◌<◌, ◌≡◌, ◌≢◌, refl, Bool, true, false, List, Option, none, some, length, get_elem?-lt,
}
use solana_atomic_arbitrage.Router.Types.{
  AccountInfo, ProgramError, Result, ok, err, panic, ◌>>=◌, ◌>>◌, fail_if, ok_or, account,
}

pub >>=-eq-ok {ℓ κ} :
    {A : Type ℓ} {B : Type κ} (first : Result A) (next : A → Result B) {out : B}
    → (first >>= next) ≡ ok out
    → (mid : A) × (first ≡ ok mid) × (next mid ≡ ok out)
unfolding ◌>>=◌
>>=-eq-ok (ok mid) next passed = (mid, refl, passed)
>>=-eq-ok (err code) next passed = cc
>>=-eq-ok panic next passed = cc

pub >>-eq-ok {ℓ} :
    {B : Type ℓ} (m : Result (Unit {0})) (k : Result B) {b : B}
    → (m >> k) ≡ ok b
    → (m ≡ ok tt) × (k ≡ ok b)
unfolding ◌>>=◌
>>-eq-ok (ok tt) k h = (refl, h)
>>-eq-ok (err e) k h = cc
>>-eq-ok panic k h = cc

-- The computation ends by a value or by an error, not by a panic.
pub data Safe {ℓ} {A : Type ℓ} : Result A → Type ℓ where
  safe_ok : (a : A) → Safe (ok a)
  safe_err : (e : ProgramError) → Safe (err e)

pub Safe-ne {ℓ} : {A : Type ℓ} {m : Result A} → Safe m → m ≢ panic
Safe-ne (safe_ok a) e = cc
Safe-ne (safe_err x) e = cc

pub >>=-Safe {ℓ κ} :
    {A : Type ℓ} {B : Type κ} {m : Result A} {f : A → Result B}
    → Safe m
    → ((a : A) → m ≡ ok a → Safe (f a))
    → Safe (m >>= f)
unfolding ◌>>=◌
>>=-Safe (safe_ok a) k = k a refl
>>=-Safe (safe_err e) k = safe_err e

pub >>-Safe {ℓ} :
    {B : Type ℓ} {m : Result (Unit {0})} {k : Result B} → Safe m → Safe k → Safe (m >> k)
unfolding ◌>>=◌
>>-Safe (safe_ok a) t = t
>>-Safe (safe_err e) t = safe_err e

pub fail_if-Safe : (b : Bool) (e : ProgramError) → Safe (fail_if b e)
unfolding fail_if
fail_if-Safe true e = safe_err e
fail_if-Safe false e = safe_ok tt

pub ok_or-Safe {ℓ} : {A : Type ℓ} (o : Option A) (e : ProgramError) → Safe (ok_or o e)
unfolding ok_or
ok_or-Safe (some a) e = safe_ok a
ok_or-Safe none e = safe_err e

pub account-Safe :
    (accounts : List AccountInfo) (i : ℕ) → i < length accounts → Safe (account accounts i)
unfolding account
account-Safe accounts i h = let (a, e) = get_elem?-lt accounts i h in rw (e, account) (safe_ok a)

pub fail_if-eq-ok : (b : Bool) (e : ProgramError) → fail_if b e ≡ ok tt → b ≡ false
unfolding fail_if
fail_if-eq-ok true e h = cc
fail_if-eq-ok false e h = refl

pub ok_or-eq-ok {ℓ} :
    {A : Type ℓ} (o : Option A) (e : ProgramError) {a : A} → ok_or o e ≡ ok a → o ≡ some a
unfolding ok_or
ok_or-eq-ok (some a) e h = cc
ok_or-eq-ok none e h = cc

pub ok-injective {ℓ} : {A : Type ℓ} {a b : A} → ok a ≡ ok b → a ≡ b
ok-injective h = cc
