-- ===== src/Router/Legs/BinArrays.antt =====
-- Which accounts the generic orchestrator passes to DLMM as bin arrays.
use solana_atomic_arbitrage.Base.{
  ℕ, zero, suc, ◌+◌, ◌≡◌, ◌∙◌, ap, refl, Bool, true, List, [], ◌∷◌, ◌++◌, get_elem?, some, subst,
  sym, length, get_elem?-append_past,
}
use mathlib.Core.Option.{some-injective}
use solana_atomic_arbitrage.Router.Cpi.Metas.{acct, acct_all, acct_meta}
use solana_atomic_arbitrage.Router.Cpi.Dlmm.{build_swap2, bin_array_slots}
use solana_atomic_arbitrage.Router.Dex.Dlmm.{dlmm_token_x_mint_off}
use solana_atomic_arbitrage.Router.Legs.{generic_swap2}
use solana_atomic_arbitrage.Router.Results.{>>=-eq-ok, ok-injective}
use solana_atomic_arbitrage.Router.Types.{
  AccountInfo, AccountMeta, Instruction, ok, account, writable,
}

-- The meta at a place is that of the account which the slot there names.
pub acct_all-eq-ok :
    (accounts : List AccountInfo) (slots : List (ℕ × Bool)) {ms : List AccountMeta}
    → acct_all accounts slots ≡ ok ms
    → (i idx : ℕ) (w : Bool) → get_elem? slots i ≡ some (idx, w)
    → (a : AccountInfo) × (account accounts idx ≡ ok a) × (get_elem? ms i ≡ some (acct_meta a w))
unfolding acct_all acct
acct_all-eq-ok accounts [] h i idx w e = cc
acct_all-eq-ok accounts ((j, v) ∷ slots) {ms = ms} h zero idx w e =
    let (m, head, rest) = >>=-eq-ok (acct accounts j v) _ h in
    let (a, found, made) = >>=-eq-ok (account accounts j) _ head in
    let (ms', tail, done) = >>=-eq-ok (acct_all accounts slots) _ rest in
    subst
      (λ s.
        (a : AccountInfo) × (account accounts s.0 ≡ ok a)
        × (get_elem? ms 0 ≡ some (acct_meta a s.1)))
      (some-injective (j, v) (idx, w) e)
      (
        a,
        found,
        ap (λ l. get_elem? l 0) (sym (ok-injective done)) ∙ ap some (sym (ok-injective made)),
      )
acct_all-eq-ok accounts ((j, v) ∷ slots) h (suc i) idx w e =
    let (m, head, rest) = >>=-eq-ok (acct accounts j v) _ h in
    let (ms', tail, done) = >>=-eq-ok (acct_all accounts slots) _ rest in
    let (a, found, at) = acct_all-eq-ok accounts slots tail i idx w e in
    (a, found, ap (λ l. get_elem? l (suc i)) (sym (ok-injective done)) ∙ at)

pub length-acct_all :
    (accounts : List AccountInfo) (slots : List (ℕ × Bool)) {ms : List AccountMeta}
    → acct_all accounts slots ≡ ok ms
    → length ms ≡ length slots
unfolding acct_all
length-acct_all accounts [] h = ap length (sym (ok-injective h))
length-acct_all accounts ((j, v) ∷ slots) h =
    let (m, head, rest) = >>=-eq-ok (acct accounts j v) _ h in
    let (ms', tail, done) = >>=-eq-ok (acct_all accounts slots) _ rest in
    ap length (sym (ok-injective done)) ∙ ap suc (length-acct_all accounts slots tail)

-- In an instruction that the generic orchestrator builds for a DLMM section with at least one bin
-- array, the account passed as the first bin array is the one at the slot of token X's mint.
pub generic_swap2-first_bin :
    (accounts : List AccountInfo) (base n amount_in token_in token_out : ℕ) {ix : Instruction}
    → generic_swap2 accounts base (suc n) amount_in token_in token_out ≡ ok ix
    → (mint : AccountInfo) × (account accounts (base + dlmm_token_x_mint_off) ≡ ok mint)
      × (get_elem? ix.accounts 16 ≡ some (writable mint.key mint.is_signer))
unfolding generic_swap2 build_swap2 bin_array_slots
generic_swap2-first_bin accounts base n amount_in token_in token_out {ix = ix} h =
    let (fixed, e₁, h₁) = >>=-eq-ok (acct_all accounts _) _ h in
    let (bins, e₂, h₂) = >>=-eq-ok (acct_all accounts _) _ h₁ in
    let (program, e₃, done) = >>=-eq-ok (account accounts _) _ h₂ in
    let (mint, found, at) = acct_all-eq-ok accounts _ e₂ 0 (base + 9) true refl in
    let behind =
      subst (λ k. get_elem? (fixed ++ bins) (k + 0) ≡ get_elem? bins 0)
        (length-acct_all accounts _ e₁) (get_elem?-append_past fixed bins 0) in
    (mint, found, ap (λ i. get_elem? i.accounts 16) (sym (ok-injective done)) ∙ behind ∙ at)
