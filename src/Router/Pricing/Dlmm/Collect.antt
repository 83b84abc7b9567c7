-- ===== src/Router/Pricing/Dlmm/Collect.antt =====
-- pricing/dlmm.rs, `estimate_dlmm_swap_output`: the bins that are read from the accounts' bytes.
use solana_atomic_arbitrage.Base.{
  ℕ, zero, suc, ◌+◌, ◌*◌, ◌%◌, ◌^◌, ◌≤◌, ◌<◌, ◌≡◌, Bool, false, Bool-cases, inl, inr, List, [], ◌∷◌,
  ◌++◌, All, Option, some, none, length, take, drop, length-append, length-take_le, ltb, ltb→lt,
  ◌==◌, ◌&&◌, if◌then◌else◌, arith,
}
use solana_atomic_arbitrage.Base.Bytes.{slice, from_le_bytes, from_le_bytes-lt}
use solana_atomic_arbitrage.Base.Checked.{u64_mod}
use solana_atomic_arbitrage.Base.Int.{ℤ, signed64}
use solana_atomic_arbitrage.Router.Pricing.Dlmm.{
  Bin, read_bin_amounts, push_bin, bin_id_of, array_bins, bins_of, all_bins, sort_bins, stride_of,
  version_of, estimate_dlmm_swap_output, bin_array_header_size,
}
use solana_atomic_arbitrage.Router.Pricing.Dlmm.Estimate.{estimate_bins-exact}
use solana_atomic_arbitrage.Router.Pricing.Dlmm.Walk.{FitsBin, walk_output, total_reserve_out}
use solana_atomic_arbitrage.Router.Types.{AccountInfo, ok}
use native.Mathlib.Nat.{pow-le-pow_right}

abbrev pub IsBytes : List ℕ → Type 0
IsBytes bytes = All (λ b. b < 256) bytes

take-IsBytes : (n : ℕ) (bytes : List ℕ) → IsBytes bytes → IsBytes (take n bytes)
take-IsBytes zero bytes h = tt
take-IsBytes (suc n) [] h = tt
take-IsBytes (suc n) (b ∷ bs) (h, hs) = (h, take-IsBytes n bs hs)

drop-IsBytes : (n : ℕ) (bytes : List ℕ) → IsBytes bytes → IsBytes (drop n bytes)
drop-IsBytes zero bytes h = h
drop-IsBytes (suc n) [] h = tt
drop-IsBytes (suc n) (b ∷ bs) (h, hs) = drop-IsBytes n bs hs

-- Eight bytes are a 64-bit number.
slice-lt : (bytes : List ℕ) (off : ℕ) → IsBytes bytes → from_le_bytes (slice bytes off 8) < u64_mod
slice-lt bytes off h =
    let part = slice bytes off 8 in
    let below =
      from_le_bytes-lt part (take-IsBytes 8 (drop off bytes) (drop-IsBytes off bytes h)) in
    let bound = pow-le-pow_right {n = 256} (omega arith) (length-take_le 8 (drop off bytes)) in
    omega arith

push_bin-FitsBin :
    (id : ℤ) (ri ro : ℕ) (rest : List Bin)
    → ri < u64_mod
    → ro < u64_mod
    → All FitsBin rest
    → All FitsBin (push_bin id ri ro rest)
push_bin-FitsBin id ri ro rest hi ho h = elim (Bool-cases (ltb 0 ri)) [
  | inl p ↦ elim (Bool-cases (ltb 0 ro)) [
    | inl q ↦ rw (p, q) (record { in_pos = ltb→lt 0 ri p; in_lt = hi; out_lt = ho }, h)
    | inr q ↦ rw (p, q) h
  ]
  | inr p ↦ rw (p) h
]

push_bin-length :
    (id : ℤ) (ri ro : ℕ) (rest : List Bin) → length (push_bin id ri ro rest) ≤ suc (length rest)
push_bin-length id ri ro rest = elim (Bool-cases (ltb 0 ri && ltb 0 ro)) [
  | inl p ↦ rw (p) (omega arith)
  | inr p ↦ rw (p) (omega arith)
]

-- What is read at an offset is nothing, or two 64-bit numbers.
abbrev ReadFits : Option (ℕ × ℕ) → Type 0
ReadFits none = Unit
ReadFits (some (ax, ay)) = (ax < u64_mod) × (ay < u64_mod)

read_bin_amounts-ReadFits :
    (bytes : List ℕ) (off : ℕ) → IsBytes bytes → ReadFits (read_bin_amounts bytes off)
unfolding read_bin_amounts
read_bin_amounts-ReadFits bytes off h = elim (Bool-cases (ltb (length bytes) (off + 16))) [
  | inl t ↦ rw (t) tt
  | inr t ↦ rw (t) (slice-lt bytes off h, slice-lt bytes (off + 8) h)
]

-- A list of bins that fit, at most `n` of them.
abbrev Collected : ℕ → List Bin → Type 0
Collected n bins = All FitsBin bins × (length bins ≤ n)

module _ (bytes : List ℕ) (stride : ℕ) (arr_index : ℤ) (is_x_to_y : Bool) where
  step :
      (bin_i n : ℕ) (read : Option (ℕ × ℕ)) (rest : List Bin)
      → ReadFits read
      → Collected n rest
      → Collected (suc n) (elim read [
        | none ↦ []
        | some amounts ↦
            if is_x_to_y
            then push_bin (bin_id_of arr_index bin_i) amounts.0 amounts.1 rest
            else push_bin (bin_id_of arr_index bin_i) amounts.1 amounts.0 rest
      ])
  step bin_i n none rest f c = (tt, omega arith)
  step bin_i n (some (ax, ay)) rest (fx, fy) (fits, few) =
      let id = bin_id_of arr_index bin_i in
      elim (Bool-cases is_x_to_y) [
        | inl t ↦ rw (t) (
          push_bin-FitsBin id ax ay rest fx fy fits,
          omega (arith, push_bin-length id ax ay rest),
        )
        | inr t ↦ rw (t) (
          push_bin-FitsBin id ay ax rest fy fx fits,
          omega (arith, push_bin-length id ay ax rest),
        )
      ]

  array_bins-Collected :
      (bin_i n : ℕ)
      → IsBytes bytes
      → Collected n (array_bins bytes stride arr_index is_x_to_y bin_i n)
  unfolding array_bins
  array_bins-Collected bin_i zero h = (tt, omega arith)
  array_bins-Collected bin_i (suc n) h =
      step bin_i n (read_bin_amounts bytes (bin_array_header_size + bin_i * stride))
        (array_bins bytes stride arr_index is_x_to_y (bin_i + 1) n)
        (read_bin_amounts-ReadFits bytes (bin_array_header_size + bin_i * stride) h)
        (array_bins-Collected (bin_i + 1) n h)

strided :
    (is_x_to_y : Bool) (bytes : List ℕ) (stride : Option ℕ)
    → IsBytes bytes
    → Collected 70 (elim stride [
      | none ↦ []
      | some stride ↦
          array_bins bytes stride (signed64 (from_le_bytes (slice bytes 8 8))) is_x_to_y 0 70
    ])
strided is_x_to_y bytes none h = (tt, omega arith)
strided is_x_to_y bytes (some stride) h =
    array_bins-Collected bytes stride (signed64 (from_le_bytes (slice bytes 8 8))) is_x_to_y 0 70 h

bins_of-Collected :
    (is_x_to_y : Bool) (bytes : List ℕ) → IsBytes bytes → Collected 70 (bins_of is_x_to_y bytes)
unfolding bins_of
bins_of-Collected is_x_to_y bytes h = elim (Bool-cases (ltb (length bytes) bin_array_header_size)) [
  | inl t ↦ rw (t) (tt, omega arith)
  | inr t ↦ rw (t) (strided is_x_to_y bytes (stride_of (version_of bytes)) h)
]

All-append : (xs ys : List Bin) → All FitsBin xs → All FitsBin ys → All FitsBin (xs ++ ys)
All-append [] ys h k = k
All-append (x ∷ xs) ys (h, hs) k = (h, All-append xs ys hs k)

-- Account data are bytes.
abbrev pub HasBytes : AccountInfo → Type 0
HasBytes a = IsBytes a.bytes

all_bins-Collected :
    (is_x_to_y : Bool) (arrs : List AccountInfo)
    → All HasBytes arrs
    → Collected (70 * length arrs) (all_bins is_x_to_y arrs)
unfolding all_bins
all_bins-Collected is_x_to_y [] h = (tt, omega arith)
all_bins-Collected is_x_to_y (a ∷ arrs) (h, hs) =
    let (f, n) = bins_of-Collected is_x_to_y a.bytes h in
    let (fs, ns) = all_bins-Collected is_x_to_y arrs hs in
    (
      All-append (bins_of is_x_to_y a.bytes) (all_bins is_x_to_y arrs) f fs,
      omega (arith, length-append (bins_of is_x_to_y a.bytes) (all_bins is_x_to_y arrs)),
    )

-- For a positive amount and fewer than 2 ^ 24 arrays of bytes with at least one bin of liquidity
-- the DLMM estimate does not fail: it is the walk's output over the sorted bins, cut off at 64
-- bits, and that output is at most half of the bins' output reserves.
pub estimate_dlmm_swap_output-exact :
    (arrs : List AccountInfo) (amount_in : ℕ) (is_x_to_y : Bool)
    → All HasBytes arrs
    → length arrs < 2 ^ 24
    → 0 < amount_in
    → 0 < length (all_bins is_x_to_y arrs)
    → (estimate_dlmm_swap_output arrs amount_in is_x_to_y
        ≡ ok (walk_output amount_in (sort_bins is_x_to_y (all_bins is_x_to_y arrs)) % u64_mod))
      × (2 * walk_output amount_in (sort_bins is_x_to_y (all_bins is_x_to_y arrs))
          ≤ total_reserve_out (all_bins is_x_to_y arrs))
unfolding estimate_dlmm_swap_output
estimate_dlmm_swap_output-exact arrs amount_in is_x_to_y h few pos liquid =
    let (fits, n) = all_bins-Collected is_x_to_y arrs h in
    rw (positive amount_in pos)
      (estimate_bins-exact amount_in is_x_to_y (all_bins is_x_to_y arrs) fits liquid (omega arith))
  where
    positive : (n : ℕ) → 0 < n → (n == 0) ≡ false
    positive n h = ground arith
