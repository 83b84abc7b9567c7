-- ===== src/Router/Pricing/Cpmm/Bounds.antt =====
-- pricing/mod.rs, `cpmm_swap_output`, on the program's machine integers.
use solana_atomic_arbitrage.Base.{
  ℕ, ◌+◌, ◌-◌, ◌*◌, ◌/◌, ◌%◌, ◌^◌, subst, zero, suc, ◌≤◌, ◌<◌, ◌≡◌, refl, sym, ◌∙◌, ap, Bool, true,
  false, ◌||◌, none, some, ◌==◌, if◌then◌else◌, Bool-cases, ==→eq, ==→ne, inl, inr, arith,
}
use solana_atomic_arbitrage.Base.Checked.{
  u64_mod, u128_mod, checked_add-fits, checked_mul-fits, checked_div-pos, checked_sub-le,
  mul-lt_u128, mul-lt_u128,
}
use solana_atomic_arbitrage.Base.Options.{◌>>=◌, ◌>>◌, none_if}
use native.Mathlib.Nat.{
  lt_irrefl, mod-eq_of_lt, zero-div, mul-div-le, div-le_of_le-mul, div-lt_iff_lt-mul,
}
use solana_atomic_arbitrage.Router.Pricing.Cpmm.{
  cpmm_swap_output, effective_input, product_output, quote,
}

pub zero_div : (n m : ℕ) → n ≡ 0 → n / m ≡ 0
zero_div n m h = ap (λ k. k / m) h ∙ zero-div m

pub effective_input-le : (a fee : ℕ) → effective_input a fee ≤ a
effective_input-le a fee = div-le_of_le-mul (10000 + fee) (grind arith)

pub product_output-lt : (ri ro e : ℕ) → 0 < ri → 0 < ro → product_output ri ro e < ro
product_output-lt ri ro e h k =
    (div-lt_iff_lt-mul {k = ri + e} {x = ro * e} {y = ro} (omega arith)).1 (grind arith)

product-kept : (ri ro e o : ℕ) → (ri + e) * o ≤ ro * e → o ≤ ro → ri * ro ≤ (ri + e) * (ro - o)
product-kept ri ro e o h k = grind arith

product_output-pos : (ri ro e : ℕ) → 0 < product_output ri ro e → 0 < ro
product_output-pos ri zero e h =
    elim (lt_irrefl 0 (subst (λ n. 0 < n) (zero_div (0 * e) (ri + e) (omega arith)) h)) [ ]
product_output-pos ri (suc ro) e h = omega arith

pub mul_zero : (n m : ℕ) → m ≡ 0 → n * m ≡ 0
mul_zero n m h = ap (λ k. n * k) h ∙ omega arith

quote-none : (ri ro a fee : ℕ) → ro * effective_input a fee ≡ 0 → quote ri ro a fee ≡ none
quote-none ri ro a fee h = elim (Bool-cases (ri == 0)) [
  | inl y ↦ rw (y) refl
  | inr y ↦ rw (y, zero_div (ro * effective_input a fee) (ri + effective_input a fee) h) refl
]

-- The last step, where both casts are exact.
exact :
    (o f : ℕ)
    → o < u64_mod
    → f < u64_mod
    → ◌>>◌ {B = ℕ × ℕ} (none_if (o == 0)) (some (o % u64_mod, f % u64_mod))
      ≡ (if o == 0 then none else some (o, f))
unfolding ◌>>=◌ none_if
exact o f ho hf = elim (Bool-cases (o == 0)) [
  | inl h ↦ rw (h) refl
  | inr h ↦
      rw (h, mod-eq_of_lt {n = o} {m = u64_mod} ho, mod-eq_of_lt {n = f} {m = u64_mod} hf) refl
]

-- On 64-bit reserves and amounts and a 16-bit fee the checked computation equals the quote on
-- unbounded numbers: no step overflows and no cast truncates.
pub cpmm_swap_output-eq-quote :
    (ri ro a fee : ℕ)
    → ri < u64_mod
    → ro < u64_mod
    → a < u64_mod
    → fee < 2 ^ 16
    → cpmm_swap_output ri ro a fee ≡ quote ri ro a fee
unfolding cpmm_swap_output ◌>>=◌ none_if
cpmm_swap_output-eq-quote ri ro a fee hri hro ha hfee =
    let e = effective_input a fee in
    let e_le = effective_input-le a fee in
    elim (Bool-cases (a == 0)) [
      | inl x ↦
          rw
            (
              x,
              quote-none ri ro a fee
                  (mul_zero ro e (zero_div (a * 10000) (10000 + fee) (omega (arith, ==→eq a 0 x)))),
            )
            refl
      | inr x ↦ elim (Bool-cases (ri == 0)) [
        | inl y ↦ rw (x, y) refl
        | inr y ↦ elim (Bool-cases (ro == 0)) [
          | inl z ↦
              rw
                (x, y, z, zero_div (ro * e) (ri + e) (ap (λ r. r * e) (==→eq ro 0 z) ∙ omega arith))
                refl
          | inr z ↦
              rw
                (
                  x,
                  y,
                  z,
                  checked_add-fits u128_mod 10000 fee (omega arith),
                  checked_mul-fits u128_mod a 10000 (omega arith),
                  checked_div-pos (a * 10000) (10000 + fee) (omega arith),
                )
                (elim (Bool-cases (e == 0)) [
                  | inl u ↦ rw (u, zero_div (ro * e) (ri + e) (mul_zero ro e (==→eq e 0 u))) refl
                  | inr u ↦
                      rw
                        (
                          u,
                          checked_sub-le a e e_le,
                          checked_mul-fits u128_mod ro e (mul-lt_u128 ro e hro (omega arith)),
                          checked_add-fits u128_mod ri e (omega arith),
                          checked_div-pos (ro * e) (ri + e) (omega (arith, ==→ne e 0 u)),
                        )
                        (exact (ro * e / (ri + e)) (a - e)
                          (omega (
                            arith,
                            product_output-lt ri ro e (omega (arith, ==→ne ri 0 y))
                                (omega (arith, ==→ne ro 0 z)),
                          ))
                          (omega arith))
                ])
        ]
      ]
    ]

if-some :
    (b : Bool) (p q : ℕ × ℕ)
    → (if b then none else some p) ≡ some q
    → (b ≡ false) × (p.0 ≡ q.0) × (p.1 ≡ q.1)
if-some true p q h = cc
if-some false p q h = (refl, cc, cc)

or-false : (m n : ℕ) → (m == 0 || n == 0) ≡ false → (0 < m) × (0 < n)
or-false m n h = (ground arith, ground arith)

-- What the parts of a quote are.
quote-eq-some :
    (ri ro a fee out f : ℕ)
    → quote ri ro a fee ≡ some (out, f)
    → (0 < ri)
      × (0 < out)
      × (out ≡ product_output ri ro (effective_input a fee))
      × (f ≡ a - effective_input a fee)
quote-eq-some ri ro a fee out f h =
    let o = product_output ri ro (effective_input a fee) in
    let (none_of, out_eq, f_eq) =
      if-some (ri == 0 || o == 0) (o, a - effective_input a fee) (out, f) h in
    let (ri_pos, o_pos) = or-false ri o none_of in (ri_pos, omega arith, sym out_eq, sym f_eq)

-- On 64-bit reserves and amounts and a 16-bit fee a quote pays a positive amount below the output
-- reserve, keeps a fee of at most the input, and the product of the reserves does not fall when
-- the fee stays out of the pool.
pub cpmm_swap_output-product :
    (ri ro a fee out fee_amount : ℕ)
    → ri < u64_mod
    → ro < u64_mod
    → a < u64_mod
    → fee < 2 ^ 16
    → cpmm_swap_output ri ro a fee ≡ some (out, fee_amount)
    → (0 < out) × (out < ro) × (fee_amount ≤ a) × (ri * ro ≤ (ri + (a - fee_amount)) * (ro - out))
cpmm_swap_output-product ri ro a fee out fee_amount hri hro ha hfee h =
    let e = effective_input a fee in
    let o = product_output ri ro e in
    let e_le = effective_input-le a fee in
    let (ri_pos, out_pos, out_eq, f_eq) =
      quote-eq-some ri ro a fee out fee_amount
        (sym (cpmm_swap_output-eq-quote ri ro a fee hri hro ha hfee) ∙ h) in
    let ro_pos = product_output-pos ri ro e (omega arith) in
    let a_eq : a - fee_amount ≡ e = omega arith in
    let o_lt = product_output-lt ri ro e ri_pos ro_pos in
    let kept = product-kept ri ro e o (mul-div-le (ro * e) (ri + e)) (omega arith) in
    (out_pos, omega arith, omega arith, rw (out_eq, a_eq) kept)
