-- ===== src/Client/Estimate/Agreement.antt =====
-- The client's estimate against the router's `cpmm_swap_output`.
use solana_atomic_arbitrage.Base.{
  ℕ, ◌+◌, ◌-◌, ◌*◌, ◌/◌, ◌%◌, ◌^◌, ◌<◌, ◌≡◌, ◌∙◌, sym, ap, refl, false, ◌||◌, Option, none, some,
  ◌==◌, Bool-cases, inl, inr, ==→eq, if◌then◌else◌, arith,
}
use solana_atomic_arbitrage.Base.Checked.{
  u64_mod, u128_mod, checked_add-fits, checked_mul-fits, checked_div-pos, mul-lt_u128,
}
use solana_atomic_arbitrage.Base.Options.{◌>>=◌, ◌>>◌, none_if}
use solana_atomic_arbitrage.Router.Pricing.Cpmm.{cpmm_swap_output, effective_input, quote}
use solana_atomic_arbitrage.Router.Pricing.Cpmm.Bounds.{
  cpmm_swap_output-eq-quote, effective_input-le, zero_div, mul_zero, product_output-lt,
}
use solana_atomic_arbitrage.Client.Estimate.{checked_output, checked_estimate_swap_output}
use native.Mathlib.Nat.{mod-eq_of_lt, mul-div_cancel}

-- The output alone, as `.map(|(out, _)| out)` takes it.
abbrev pub output_of : Option (ℕ × ℕ) → Option ℕ
output_of none = none
output_of (some (out, _)) = some out

exact_output :
    (o : ℕ)
    → o < u64_mod
    → ◌>>◌ {B = ℕ} (none_if (o == 0)) (some (o % u64_mod)) ≡ (if o == 0 then none else some o)
unfolding ◌>>=◌ none_if
exact_output o h = elim (Bool-cases (o == 0)) [
  | inl z ↦ rw (z) refl
  | inr z ↦ rw (z, mod-eq_of_lt {n = o} {m = u64_mod} h) refl
]

nonzero : (n : ℕ) → 0 < n → (n == 0) ≡ false
nonzero n h = ground arith

mapped :
    (ri o f : ℕ)
    → 0 < ri
    → (if o == 0 then none else some o)
      ≡ output_of (if ri == 0 || o == 0 then none else some (o, f))
mapped ri o f h = elim (Bool-cases (o == 0)) [
  | inl z ↦ rw (nonzero ri h, z) refl
  | inr z ↦ rw (nonzero ri h, z) refl
]

checked_output-eq :
    (ri ro a fee : ℕ)
    → 0 < ri
    → 0 < ro
    → ri < u64_mod
    → ro < u64_mod
    → a < u64_mod
    → fee < 2 ^ 32
    → checked_output ri ro a fee ≡ output_of (quote ri ro a fee)
unfolding checked_output ◌>>=◌ none_if
checked_output-eq ri ro a fee pri pro hri hro ha hf =
    let e = effective_input a fee in
    let e_le = effective_input-le a fee in
    rw
      (
        checked_add-fits u128_mod 10000 fee (omega arith),
        checked_mul-fits u128_mod a 10000 (omega arith),
        checked_div-pos (a * 10000) (10000 + fee) (omega arith),
      )
      (elim (Bool-cases (e == 0)) [
        | inl u ↦
            rw (u, nonzero ri pri, zero_div (ro * e) (ri + e) (mul_zero ro e (==→eq e 0 u))) refl
        | inr u ↦
            rw
              (
                u,
                checked_mul-fits u128_mod ro e (mul-lt_u128 ro e hro (omega arith)),
                checked_add-fits u128_mod ri e (omega arith),
                nonzero (ri + e) (omega arith),
                checked_div-pos (ro * e) (ri + e) (omega arith),
              )
              (exact_output (ro * e / (ri + e)) (omega (arith, product_output-lt ri ro e pri pro))
                ∙ mapped ri (ro * e / (ri + e)) (a - e) pri)
      ])

-- On 64-bit reserves that are not empty, a positive 64-bit amount and a 16-bit fee the client
-- predicts exactly the output of the router's formula.
pub checked_estimate_swap_output-eq-cpmm :
    (ri ro a fee : ℕ)
    → 0 < ri
    → 0 < ro
    → 0 < a
    → ri < u64_mod
    → ro < u64_mod
    → a < u64_mod
    → fee < 2 ^ 16
    → checked_estimate_swap_output ri ro a fee ≡ output_of (cpmm_swap_output ri ro a fee)
unfolding checked_estimate_swap_output
checked_estimate_swap_output-eq-cpmm ri ro a fee pri pro pa hri hro ha hf = rw (nonzero a pa) (
    checked_output-eq ri ro a fee pri pro hri hro ha (omega arith)
    ∙ ap output_of (sym (cpmm_swap_output-eq-quote ri ro a fee hri hro ha hf)))

cancel : (n m : ℕ) → 0 < m → n * m / (0 + m) ≡ n
cancel n m h = ap (λ k. n * m / k) {x = 0 + m} {y = m} (omega arith) ∙ mul-div_cancel n h

-- On an empty input reserve, and an amount that is not used up by the fee, the client promises the
-- whole output reserve, where the router quotes nothing.
pub checked_estimate_swap_output-empty :
    (ro a fee : ℕ)
    → 0 < ro
    → ro < u64_mod
    → a < u64_mod
    → fee < 2 ^ 16
    → 0 < effective_input a fee
    → (checked_estimate_swap_output 0 ro a fee ≡ some ro) × (cpmm_swap_output 0 ro a fee ≡ none)
unfolding checked_estimate_swap_output checked_output ◌>>=◌ none_if cpmm_swap_output
checked_estimate_swap_output-empty ro a fee pro hro ha hf pe =
    let e = effective_input a fee in
    let e_le = effective_input-le a fee in
    let a_ne = nonzero a (omega arith) in
    (
      rw
          (
            a_ne,
            checked_add-fits u128_mod 10000 fee (omega arith),
            checked_mul-fits u128_mod a 10000 (omega arith),
            checked_div-pos (a * 10000) (10000 + fee) (omega arith),
            nonzero e pe,
            checked_mul-fits u128_mod ro e (mul-lt_u128 ro e hro (omega arith)),
            checked_add-fits u128_mod 0 e (omega arith),
            nonzero (0 + e) (omega arith),
            checked_div-pos (ro * e) (0 + e) (omega arith),
            cancel ro e pe,
            nonzero ro pro,
            mod-eq_of_lt {n = ro} {m = u64_mod} hro,
          )
          refl,
      rw (a_ne) refl,
    )
