-- ===== src/Client/Simulator/Loading.antt =====
-- The accounts that the runtime loads for a section, flags included, and the metas that the router's
-- CPI builders (programs/arbitrage/src/cpi) read back from them.
use solana_atomic_arbitrage.Base.{
  ℕ, zero, suc, ◌+◌, ◌≡◌, ◌∙◌, sym, ap, subst, refl, Bool, true, false, List, [], ◌∷◌, ◌++◌, map,
  length, drop, get_elem?, some, length-map, arith,
}
use mathlib.Core.List.{append_assoc}
use solana_atomic_arbitrage.Router.Types.{AccountInfo, AccountMeta, ok, ◌>>=◌, account, readonly}
use solana_atomic_arbitrage.Router.Cpi.Metas.{acct_meta, acct, acct_all, remaining_metas}

-- The meta that an account was loaded for.
abbrev pub meta_of : AccountInfo → AccountMeta
meta_of a = record { pubkey = a.key; is_signer = a.is_signer; is_writable = a.is_writable }

-- Places `base + k`, `base + (k + 1)`, … with the writable flags of the metas.
abbrev pub consecutive : ℕ → ℕ → List AccountMeta → List (ℕ × Bool)
consecutive base k [] = []
consecutive base k (m ∷ ms) = (base + k, m.is_writable) ∷ consecutive base (k + 1) ms

acct_meta_lem : (a : AccountInfo) → acct_meta a a.is_writable ≡ meta_of a
acct_meta_lem a = by_flag a a.is_writable refl
  where
    by_flag :
        (a : AccountInfo) (w : Bool) → a.is_writable ≡ w → acct_meta a a.is_writable ≡ meta_of a
    by_flag a true h = ground arith
    by_flag a false h = ground arith

get_elem?-drop :
    {A : Type 0} (xs : List A) (i : ℕ) {a : A} {rest : List A}
    → drop i xs ≡ a ∷ rest
    → get_elem? xs i ≡ some a
get_elem?-drop [] zero h = cc
get_elem?-drop [] (suc i) h = cc
get_elem?-drop (x ∷ xs) zero h = cc
get_elem?-drop (x ∷ xs) (suc i) h = get_elem?-drop xs i h

drop_suc :
    {A : Type 0} (xs : List A) (i : ℕ) {a : A} {rest : List A}
    → drop i xs ≡ a ∷ rest
    → drop (i + 1) xs ≡ rest
drop_suc [] zero h = cc
drop_suc [] (suc i) h = cc
drop_suc (x ∷ xs) zero h = cc
drop_suc (x ∷ xs) (suc i) {rest = rest} h =
    subst (λ n. drop n (x ∷ xs) ≡ rest) {x = suc (i + 1)} (omega arith) (drop_suc xs i h)

module _ (accounts : List AccountInfo) where
  account-there :
      (place : ℕ) {a : AccountInfo} {rest : List AccountInfo}
      → drop place accounts ≡ a ∷ rest
      → account accounts place ≡ ok a
  unfolding account
  account-there place h = rw (get_elem?-drop accounts place h, account) refl

  acct-there :
      (place : ℕ) (a : AccountInfo) (m : AccountMeta) {rest : List AccountInfo}
      → drop place accounts ≡ a ∷ rest
      → meta_of a ≡ m
      → acct accounts place m.is_writable ≡ ok m
  unfolding acct ◌>>=◌
  acct-there place a m h e =
      rw (account-there place h)
        (ap ok (ap (λ x. acct_meta a x.is_writable) (sym e) ∙ acct_meta_lem a ∙ e))

  pub acct_all-consecutive :
      (base k place : ℕ) (loaded after : List AccountInfo) (ms : List AccountMeta)
      → base + k ≡ place
      → drop place accounts ≡ loaded ++ after
      → map meta_of loaded ≡ ms
      → acct_all accounts (consecutive base k ms) ≡ ok ms
  unfolding acct_all ◌>>=◌
  acct_all-consecutive base k place [] after [] at h e = refl
  acct_all-consecutive base k place [] after (m ∷ ms) at h e = cc
  acct_all-consecutive base k place (a ∷ as') after [] at h e = cc
  acct_all-consecutive base k place (a ∷ as') after (m ∷ ms) at h e =
      let first : acct accounts (base + k) m.is_writable ≡ ok m =
        rw at (acct-there place a m h (cc)) in
      let others : acct_all accounts (consecutive base (k + 1) ms) ≡ ok ms =
        acct_all-consecutive base (k + 1) (place + 1) as' after ms (omega arith)
          (drop_suc accounts place h) (cc) in
      rw (first, others) refl

  pub remaining_metas-loaded :
      (place : ℕ) (loaded after : List AccountInfo)
      → drop place accounts ≡ loaded ++ after
      → remaining_metas accounts place (length loaded) ≡ ok (map meta_of loaded)
  unfolding remaining_metas ◌>>=◌
  remaining_metas-loaded place [] after h = refl
  remaining_metas-loaded place (a ∷ as') after h =
      rw
        (
          account-there place h,
          remaining_metas-loaded (place + 1) as' after (drop_suc accounts place h),
        )
        (ap (λ m. ok (m ∷ map meta_of as')) (acct_meta_lem a))

  -- The account behind one place of a section.
  pub account-loaded :
      (base i place : ℕ) (loaded after : List AccountInfo) (m : AccountMeta)
      → base + i ≡ place
      → drop base accounts ≡ loaded ++ after
      → get_elem? (map meta_of loaded) i ≡ some m
      → (a : AccountInfo) × (account accounts place ≡ ok a) × (meta_of a ≡ m)
  account-loaded base i place [] after m at h e = cc
  account-loaded base zero place (a ∷ as') after m at h e = (
    a,
    subst (λ n. account accounts n ≡ ok a) {x = base} (omega arith) (account-there base h),
    cc,
  )
  account-loaded base (suc i) place (a ∷ as') after m at h e =
      account-loaded (base + 1) i place as' after m (omega arith) (drop_suc accounts base h) e

pub map-eq-append :
    {A B : Type 0} (f : A → B) (xs : List A) (ys zs : List B)
    → map f xs ≡ ys ++ zs
    → (as' : List A) × (bs : List A) × (xs ≡ as' ++ bs) × (map f as' ≡ ys) × (map f bs ≡ zs)
map-eq-append f xs [] zs h = ([], xs, refl, refl, h)
map-eq-append f [] (y ∷ ys) zs h = absurd_nil h
  where
    absurd_nil : {C : Type 0} → [] ≡ y ∷ (ys ++ zs) → C
    absurd_nil h = cc
map-eq-append f (x ∷ xs) (y ∷ ys) zs h =
    let (as', bs, e, ea, eb) = map-eq-append f xs ys zs (cc) in (x ∷ as', bs, ap (◌∷◌ x) e, cc, eb)

pub drop-past :
    {A : Type 0} (xs : List A) (place : ℕ) (ys zs : List A)
    → drop place xs ≡ ys ++ zs
    → drop (place + length ys) xs ≡ zs
drop-past xs place [] zs h = subst (λ n. drop n xs ≡ zs) {x = place} (omega arith) h
drop-past xs place (y ∷ ys) zs h =
    subst (λ n. drop n xs ≡ zs) {x = place + 1 + length ys} (omega arith)
      (drop-past xs (place + 1) ys zs (drop_suc xs place h))

-- A section as its fixed and its remaining accounts.
pub record Split (accounts : List AccountInfo) (base : ℕ)
    (fixed_metas rest_metas : List AccountMeta) : Type 0 where
  pub fixed : List AccountInfo
  pub rest : List AccountInfo
  pub after : List AccountInfo
  pub there : drop base accounts ≡ fixed ++ (rest ++ after)
  pub is_fixed : map meta_of fixed ≡ fixed_metas
  pub is_rest : map meta_of rest ≡ rest_metas

pub section-Split :
    (accounts loaded after : List AccountInfo) (base : ℕ)
    (fixed_metas rest_metas : List AccountMeta)
    → drop base accounts ≡ loaded ++ after
    → map meta_of loaded ≡ fixed_metas ++ rest_metas
    → Split accounts base fixed_metas rest_metas
section-Split accounts loaded after base fixed_metas rest_metas there sent =
    let (fixed, rest, split, is_fixed, is_rest) =
      map-eq-append meta_of loaded fixed_metas rest_metas sent in
    record {
      fixed = fixed;
      rest = rest;
      after = after;
      there = there ∙ ap (λ l. l ++ after) split ∙ append_assoc fixed rest after;
      is_fixed = is_fixed;
      is_rest = is_rest;
    }

-- What the router reads from such a section.
module _ (accounts : List AccountInfo) (base : ℕ) (fixed_metas rest_metas : List AccountMeta)
    (s : Split accounts base fixed_metas rest_metas) where
  pub fixed-read : acct_all accounts (consecutive base 0 fixed_metas) ≡ ok fixed_metas
  fixed-read =
      acct_all-consecutive accounts base 0 base s.fixed (s.rest ++ s.after) fixed_metas
        (omega arith) s.there s.is_fixed

  pub rest-read :
      (n count : ℕ)
      → length fixed_metas ≡ n
      → length rest_metas ≡ count
      → remaining_metas accounts (base + n) count ≡ ok rest_metas
  rest-read n count hn hc =
      let past : drop (base + n) accounts ≡ s.rest ++ s.after =
        subst (λ m. drop (base + m) accounts ≡ s.rest ++ s.after)
          (sym (length-map meta_of s.fixed) ∙ ap length s.is_fixed ∙ hn)
          (drop-past accounts base s.fixed (s.rest ++ s.after) s.there) in
      subst (λ m. remaining_metas accounts (base + n) m ≡ ok rest_metas)
        (sym (length-map meta_of s.rest) ∙ ap length s.is_rest ∙ hc)
        (remaining_metas-loaded accounts (base + n) s.rest s.after past ∙ ap ok s.is_rest)

  pub program-read :
      (i key : ℕ)
      → get_elem? fixed_metas i ≡ some (readonly key false)
      → (a : AccountInfo) × (account accounts (base + i) ≡ ok a) × (a.key ≡ key)
  program-read i key h =
      let (a, at, is) =
        account-loaded accounts base i (base + i) s.fixed (s.rest ++ s.after) (readonly key false)
          refl s.there (ap (λ ms. get_elem? ms i) s.is_fixed ∙ h) in
      (a, at, ap (λ m. m.pubkey) is)
