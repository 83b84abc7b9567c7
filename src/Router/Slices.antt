-- ===== src/Router/Slices.antt =====
-- Slices of byte strings, which panic out of range: `data[a..b]` in programs/arbitrage/src.
use solana_atomic_arbitrage.Base.{
  ℕ, ◌+◌, ◌≤◌, ◌≡◌, ◌∙◌, ap, sym, refl, List, length, leb, if◌then◌else◌, arith,
}
use solana_atomic_arbitrage.Base.Bytes.{slice, from_le_bytes}
use solana_atomic_arbitrage.Router.Types.{Result, ok, panic, ◌>>=◌}
use solana_atomic_arbitrage.Router.Results.{Safe, safe_ok, >>=-eq-ok, ok-injective}

-- `&bytes[off..off + len]`
unfoldable pub slice_at : List ℕ → ℕ → ℕ → Result (List ℕ)
slice_at bytes off len = if leb (off + len) (length bytes) then ok (slice bytes off len) else panic

-- `u64::from_le_bytes(bytes[off..off + 8].try_into().unwrap())`: the slice has the eight bytes.
unfoldable pub u64_at : List ℕ → ℕ → Result ℕ
u64_at bytes off = do part ← slice_at bytes off 8; ok (from_le_bytes part)

-- The number that a slice in range spells.
abbrev pub read_u64 : List ℕ → ℕ → ℕ
read_u64 bytes off = from_le_bytes (slice bytes off 8)

pub slice_at-ok :
    (bytes : List ℕ) (off len : ℕ)
    → off + len ≤ length bytes
    → slice_at bytes off len ≡ ok (slice bytes off len)
unfolding slice_at
slice_at-ok bytes off len h = ground arith

pub slice_at-Safe :
    (bytes : List ℕ) (off len : ℕ) → off + len ≤ length bytes → Safe (slice_at bytes off len)
slice_at-Safe bytes off len h = rw (slice_at-ok bytes off len h) (safe_ok _)

pub slice_at-eq-ok :
    (bytes : List ℕ) (off len : ℕ) {part : List ℕ}
    → slice_at bytes off len ≡ ok part
    → part ≡ slice bytes off len
unfolding slice_at
slice_at-eq-ok bytes off len h = ground arith

pub u64_at-ok :
    (bytes : List ℕ) (off : ℕ) → off + 8 ≤ length bytes → u64_at bytes off ≡ ok (read_u64 bytes off)
unfolding u64_at ◌>>=◌
u64_at-ok bytes off h = rw (slice_at-ok bytes off 8 h) refl

pub u64_at-Safe : (bytes : List ℕ) (off : ℕ) → off + 8 ≤ length bytes → Safe (u64_at bytes off)
u64_at-Safe bytes off h = rw (u64_at-ok bytes off h) (safe_ok _)

pub u64_at-eq-ok :
    (bytes : List ℕ) (off : ℕ) {n : ℕ} → u64_at bytes off ≡ ok n → n ≡ read_u64 bytes off
unfolding u64_at
u64_at-eq-ok bytes off h =
    let (part, sliced, spelt) = >>=-eq-ok (slice_at bytes off 8) _ h in
    sym (ok-injective spelt) ∙ ap from_le_bytes (slice_at-eq-ok bytes off 8 sliced)
