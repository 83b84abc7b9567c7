-- ===== src/Base/Options.antt =====
-- The chain of optional results that Rust writes with `?`.
use mathlib.Core.Path.{◌≡◌, refl}
use mathlib.Core.Bool.{Bool, true, false}
use mathlib.Core.Option.{Option, none, some}

infixl 5 ◌>>=◌ ◌>>◌
unfoldable pub ◌>>=◌ {ℓ κ} : {A : Type ℓ} {B : Type κ} → Option A → (A → Option B) → Option B
none >>= f = none
some a >>= f = f a

pub >>=-some {ℓ κ} :
    {A : Type ℓ} {B : Type κ} {m : Option A} {a : A} (f : A → Option B)
    → m ≡ some a
    → (m >>= f) ≡ f a
unfolding ◌>>=◌
>>=-some f h = rw (h, ◌>>=◌) refl

abbrev pub ◌>>◌ {ℓ} : {B : Type ℓ} → Option (Unit {0}) → Option B → Option B
m >> k = m >>= λ _. k

-- `if b { return None; }`
unfoldable pub none_if : Bool → Option (Unit {0})
none_if true = none
none_if false = some tt

-- A chain that returns something did so at its first step.
pub >>=-eq-some {ℓ κ} :
    {A : Type ℓ} {B : Type κ} (m : Option A) (f : A → Option B) {b : B}
    → (m >>= f) ≡ some b
    → (a : A) × (m ≡ some a) × (f a ≡ some b)
unfolding ◌>>=◌
>>=-eq-some none f h = cc
>>=-eq-some (some a) f h = (a, refl, h)

pub none_if-eq-some : (b : Bool) {u : Unit {0}} → none_if b ≡ some u → b ≡ false
unfolding none_if
none_if-eq-some true h = cc
none_if-eq-some false h = refl
