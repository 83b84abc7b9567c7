-- ===== src/Client/Route/SectionData/TickArrays.antt =====
-- src/executor/atomic/generic_route.rs: the tick arrays that a Whirlpool section is given.
use mathlib.Core.Option.{some-injective}
use native.Mathlib.Nat.{div-add-mod, div-mul-le_self, mod-lt}
use solana_atomic_arbitrage.Base.{
  ℕ, zero, suc, ◌+◌, ◌-◌, ◌*◌, ◌/◌, ◌%◌, ◌^◌, ◌<◌, ◌≡◌, ◌∙◌, sym, ap, refl, List, [], ◌∷◌, some,
  get_elem?, length, ltb, ◌==◌, ◌/=◌, Bool-cases, inl, inr, arith,
}
use solana_atomic_arbitrage.Base.Int.{ℤ, pos, negsuc, sub_ℕ, as_i32, add_ℤ, mul_ℕ}
use solana_atomic_arbitrage.Base.Options.{none_if, >>=-eq-some}
use solana_atomic_arbitrage.Client.Constants
use solana_atomic_arbitrage.Client.Route.SectionData.{
  WhirlpoolSectionData, whirlpool_section_data, derive_whirlpool_tick_arrays, floor_div_i32,
  start_tick, mul_ℕ, tick_array_pda, whirlpool_tick_array_size,
}
use solana_atomic_arbitrage.PoolCache.Dlmm.{DlmmPoolReserves}
use solana_atomic_arbitrage.PoolCache.Node.{Node}
use solana_atomic_arbitrage.PoolCache.Whirlpool.{
  fetch_whirlpool_by_address, reserves_of, min_data_len,
}
use solana_atomic_arbitrage.Router.Types.{Pubkey, Runtime}

-- The Whirlpool program in place of each tick array.
abbrev pub no_tick_arrays : List Pubkey
no_tick_arrays =
    Constants.whirlpool_program ∷ Constants.whirlpool_program ∷ Constants.whirlpool_program ∷ []

by_address-bin_step :
    (node : Node) (pool : Pubkey) (r : DlmmPoolReserves)
    → fetch_whirlpool_by_address node pool ≡ some r
    → r.bin_step ≡ 0
unfolding fetch_whirlpool_by_address reserves_of
by_address-bin_step node pool r h =
    let (account, _, h₁) = >>=-eq-some (node.get_account pool) _ h in
    let (_, _, h₂) = >>=-eq-some (none_if (ltb (length account.bytes) min_data_len)) _ h₁ in
    sym (ap (λ (x : DlmmPoolReserves). x.bin_step) (some-injective _ _ h₂))

section-tick_arrays :
    (rt : Runtime) (r : DlmmPoolReserves) (d : WhirlpoolSectionData)
    → whirlpool_section_data rt r ≡ some d
    → d.tick_arrays ≡ derive_whirlpool_tick_arrays rt r.lb_pair r.tick_current_index r.bin_step
unfolding whirlpool_section_data
section-tick_arrays rt r d h =
    let (_, _, h₁) = >>=-eq-some (none_if (r.token_x_mint /= Constants.native_sol_mint)) _ h in
    sym (ap (λ (x : WhirlpoolSectionData). x.tick_arrays) (some-injective _ _ h₁))

derive-zero_spacing :
    (rt : Runtime) (pool : Pubkey) (tick : ℤ)
    → derive_whirlpool_tick_arrays rt pool tick 0 ≡ no_tick_arrays
unfolding derive_whirlpool_tick_arrays
derive-zero_spacing rt pool tick = refl

-- A Whirlpool section resolved from reserves that were read by the pool's address has the
-- Whirlpool program in place of each of its three tick arrays.
pub by_address-no_tick_arrays :
    (rt : Runtime) (node : Node) (pool : Pubkey) (r : DlmmPoolReserves) (d : WhirlpoolSectionData)
    → fetch_whirlpool_by_address node pool ≡ some r
    → whirlpool_section_data rt r ≡ some d
    → d.tick_arrays ≡ no_tick_arrays
by_address-no_tick_arrays rt node pool r d read resolved =
    section-tick_arrays rt r d resolved
    ∙ ap (derive_whirlpool_tick_arrays rt r.lb_pair r.tick_current_index)
        (by_address-bin_step node pool r read)
    ∙ derive-zero_spacing rt r.lb_pair r.tick_current_index

-- Ticks of the protocol are within 443636 of zero; 2 ^ 30 leaves room for the arrays around.
abbrev pub IsTick : ℤ → Type 0
IsTick (pos n) = n < 2 ^ 30
IsTick (negsuc n) = n < 2 ^ 30

-- A start, and a place in the range behind it: a multiple of the range at or below the tick.
abbrev pub Starts : ℤ → ℕ → ℤ → Type 0
Starts tick range start =
    (place : ℕ) × (place < range)
    × (add_ℤ start (pos place) ≡ tick)
    × ((q : ℤ) × (start ≡ mul_ℕ q range))

below_zero : (m : ℕ) → 0 < m → sub_ℕ 0 m ≡ negsuc (m - 1)
below_zero m h = ground arith

as_i32-pos : (n : ℕ) → n < 2 ^ 31 → as_i32 (pos n) ≡ pos n
as_i32-pos n h = ground arith

as_i32-negsuc : (n : ℕ) → n < 2 ^ 31 → as_i32 (negsuc n) ≡ negsuc n
as_i32-negsuc n h = ground arith

-- The floor of a negative number, exactly divided or not.
floor_div_i32-exact :
    (n range : ℕ)
    → suc n % range ≡ 0
    → 0 < suc n / range
    → floor_div_i32 (negsuc n) (pos range) ≡ negsuc (suc n / range - 1)
unfolding floor_div_i32
floor_div_i32-exact n range r h = ground arith

floor_div_i32-below :
    (n range : ℕ)
    → 0 < suc n % range
    → floor_div_i32 (negsuc n) (pos range) ≡ negsuc (suc n / range)
unfolding floor_div_i32
floor_div_i32-below n range r = ground arith

floor_div_i32-pos : (n range : ℕ) → floor_div_i32 (pos n) (pos range) ≡ pos (n / range)
unfolding floor_div_i32
floor_div_i32-pos n range = elim (Bool-cases ((n % range) == 0)) [
  | inl e ↦ ground arith
  | inr e ↦ ground arith
]

start_tick-pos :
    (n range : ℕ) → n < 2 ^ 30 → 0 < range → Starts (pos n) range (start_tick (pos n) range)
unfolding start_tick
start_tick-pos n range h p =
    let whole = div-add-mod n range in
    let start =
      ap (λ q. as_i32 (mul_ℕ q range)) (floor_div_i32-pos n range)
      ∙ as_i32-pos (n / range * range) (omega (arith, div-mul-le_self n range)) in
    (n % range, mod-lt n p, rw start (ground arith), (pos (n / range), start))

-- A negative tick, given the floor -(k + 1).
floor-Starts :
    (n range k place : ℕ)
    → floor_div_i32 (negsuc n) (pos range) ≡ negsuc k
    → suc k * range ≡ suc n + place
    → place < range
    → n < 2 ^ 30
    → range < 2 ^ 23
    → Starts (negsuc n) range (start_tick (negsuc n) range)
unfolding start_tick
floor-Starts n range k place floor whole inside h b =
    let product = below_zero (suc k * range) (omega arith) in
    let start =
      ap (λ q. as_i32 (mul_ℕ q range)) floor
      ∙ ap as_i32 product
      ∙ as_i32-negsuc (suc k * range - 1) (omega arith) in
    (place, inside, rw start (ground arith), (negsuc k, start ∙ sym product))

quotient-pos : (n range q : ℕ) → range * q ≡ suc n → 0 < q
quotient-pos n range zero h = omega arith
quotient-pos n range (suc q) h = omega arith

start_tick-negsuc :
    (n range : ℕ)
    → n < 2 ^ 30
    → 0 < range
    → range < 2 ^ 23
    → Starts (negsuc n) range (start_tick (negsuc n) range)
start_tick-negsuc n range h p b =
    let whole = div-add-mod (suc n) range in
    let small = mod-lt (suc n) p in
    elim (Bool-cases (suc n % range == 0)) [
      | inl exact ↦
          let positive = quotient-pos n range (suc n / range) (grind arith) in
          floor-Starts n range (suc n / range - 1) 0
            (floor_div_i32-exact n range (ground arith) positive) (grind arith) p h b
      | inr below ↦
          floor-Starts n range (suc n / range) (range - suc n % range)
            (floor_div_i32-below n range (ground arith)) (grind arith) (ground arith) h b
    ]

start_tick-Starts :
    (tick : ℤ) (range : ℕ)
    → IsTick tick
    → 0 < range
    → range < 2 ^ 23
    → Starts tick range (start_tick tick range)
start_tick-Starts (pos n) range h p b = start_tick-pos n range h p
start_tick-Starts (negsuc n) range h p b = start_tick-negsuc n range h p b

-- The first array starts at the start tick itself: the cast to 32 bits keeps it.
first-kept :
    (tick start : ℤ) (place offset : ℕ)
    → offset ≡ 0
    → IsTick tick
    → place < 2 ^ 23
    → add_ℤ start (pos place) ≡ tick
    → as_i32 (add_ℤ start (pos offset)) ≡ start
first-kept (pos t) (pos s) place offset z h b e = ground arith
first-kept (pos t) (negsuc s) place offset z h b e = ground arith
first-kept (negsuc t) (pos s) place offset z h b e = ground arith
first-kept (negsuc t) (negsuc s) place offset z h b e = ground arith

-- For a tick within 2 ^ 30 of zero, negative ones included, and a positive 16-bit spacing, the
-- first tick array is the derived address of a start tick that is a multiple of the array's range,
-- at most the tick, and less than one range below it.
pub first_tick_array-Starts :
    (rt : Runtime) (pool : Pubkey) (tick : ℤ) (tick_spacing : ℕ)
    → IsTick tick
    → 0 < tick_spacing
    → tick_spacing < 2 ^ 16
    → (start : ℤ) × Starts tick (tick_spacing * whirlpool_tick_array_size) start
      × (get_elem? (derive_whirlpool_tick_arrays rt pool tick tick_spacing) 0
          ≡ some (tick_array_pda rt pool start))
unfolding derive_whirlpool_tick_arrays
first_tick_array-Starts rt pool tick tick_spacing h p b =
    let range = tick_spacing * whirlpool_tick_array_size in
    let (place, inside, at, multiple) =
      start_tick-Starts tick range h (omega arith) (omega arith) in
    let kept =
      first-kept tick (start_tick tick range) place (0 * range) (omega arith) h (omega arith) at in
    elim (Bool-cases (range == 0)) [
      | inl empty ↦ ground arith
      | inr some_range ↦ (
        start_tick tick range,
        (place, inside, at, multiple),
        rw some_range (ap (λ t. some (tick_array_pda rt pool t)) kept),
      )
    ]
