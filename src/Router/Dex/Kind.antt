-- ===== src/Router/Dex/Kind.antt =====
-- programs/arbitrage/src/instructions/orchestrate.rs: `DexKind`, `identify_dex` and
-- `validate_dex_section`.
use solana_atomic_arbitrage.Base.{
  ℕ, ◌+◌, ◌≤◌, Bool, true, false, List, Option, none, some, length, leb, ◌==◌, if◌then◌else◌,
  Bool-cases, inl, inr, arith,
}
use solana_atomic_arbitrage.Router.Constants
use solana_atomic_arbitrage.Router.Types.{Pubkey, AccountInfo, Runtime, Result, ok, ◌>>=◌, account}
use solana_atomic_arbitrage.Router.Results.{Safe, safe_ok, >>=-Safe, account-Safe}
use solana_atomic_arbitrage.Router.Dex.PumpSwap
use solana_atomic_arbitrage.Router.Dex.Dlmm
use solana_atomic_arbitrage.Router.Dex.Cpmm
use solana_atomic_arbitrage.Router.Dex.Whirlpool

pub data DexKind : Type 0 where
  pump_swap dlmm cpmm whirlpool : DexKind

unfoldable pub fixed_len : DexKind → ℕ
fixed_len pump_swap = PumpSwap.pumpswap_buy_fixed_len
fixed_len dlmm = Dlmm.dlmm_fixed_len
fixed_len cpmm = Cpmm.cpmm_fixed_len
fixed_len whirlpool = Whirlpool.whirlpool_fixed_len

unfoldable pub from_program_id : Pubkey → Option DexKind
from_program_id pid =
    if pid == Constants.pump_swap_id
    then some pump_swap
    else if pid == Constants.dlmm_id
    then some dlmm
    else if pid == Constants.cpmm_id
    then some cpmm
    else if pid == Constants.whirlpool_id
    then some whirlpool
    else none

-- The derived `==` of `DexKind`.
unfoldable pub same_kind : DexKind → DexKind → Bool
same_kind pump_swap pump_swap = true
same_kind dlmm dlmm = true
same_kind cpmm cpmm = true
same_kind whirlpool whirlpool = true
same_kind _ _ = false

-- The probe at offset 16.
unfoldable pub probe_far : List AccountInfo → ℕ → Result (Option DexKind)
probe_far accounts probe =
    if leb (length accounts) probe
    then ok none
    else do a ← account accounts probe; ok (from_program_id a.key)

-- The first probe has found a kind, or the second is made.
unfoldable pub or_probe : Option DexKind → Result (Option DexKind) → Result (Option DexKind)
or_probe (some kind) rest = ok (some kind)
or_probe none rest = rest

unfoldable pub identify_dex : List AccountInfo → ℕ → Result (Option DexKind)
identify_dex accounts base = if leb (length accounts) base then ok none else do
  a ← account accounts base
  or_probe (from_program_id a.key) (probe_far accounts (base + 16))

unfoldable pub validate_dex_section :
    Runtime → List AccountInfo → DexKind → ℕ → ℕ → Result (Unit {0})
validate_dex_section rt accounts pump_swap = PumpSwap.validate_section rt accounts
validate_dex_section rt accounts dlmm = Dlmm.validate_section rt accounts
validate_dex_section rt accounts cpmm = Cpmm.validate_section rt accounts
validate_dex_section rt accounts whirlpool = Whirlpool.validate_section rt accounts

probe_far-Safe : (accounts : List AccountInfo) (i : ℕ) → Safe (probe_far accounts i)
unfolding probe_far
probe_far-Safe accounts i = elim (Bool-cases (leb (length accounts) i)) [
  | inl out ↦ rw out (safe_ok none)
  | inr within ↦ rw within (>>=-Safe (account-Safe accounts i (ground arith)) (λ a _. safe_ok _))
]

or_probe-Safe :
    (o : Option DexKind) (rest : Result (Option DexKind)) → Safe rest → Safe (or_probe o rest)
unfolding or_probe
or_probe-Safe (some kind) rest s = safe_ok (some kind)
or_probe-Safe none rest s = s

pub identify_dex-Safe : (accounts : List AccountInfo) (base : ℕ) → Safe (identify_dex accounts base)
unfolding identify_dex
identify_dex-Safe accounts base = elim (Bool-cases (leb (length accounts) base)) [
  | inl out ↦ rw out (safe_ok none)
  | inr within ↦ rw within (
      >>=-Safe (account-Safe accounts base (ground arith))
        λ a _. or_probe-Safe _ _ (probe_far-Safe accounts (base + 16)))
]

pub validate_dex_section-Safe :
    (rt : Runtime) (accounts : List AccountInfo) (kind : DexKind) (base remaining : ℕ)
    → base + fixed_len kind + remaining ≤ length accounts
    → Safe (validate_dex_section rt accounts kind base remaining)
unfolding validate_dex_section fixed_len
validate_dex_section-Safe rt accounts pump_swap base n h =
    PumpSwap.validate_section-Safe rt accounts base n h
validate_dex_section-Safe rt accounts dlmm base n h =
    Dlmm.validate_section-Safe rt accounts base n h
validate_dex_section-Safe rt accounts cpmm base n h =
    Cpmm.validate_section-Safe rt accounts base n h
validate_dex_section-Safe rt accounts whirlpool base n h =
    Whirlpool.validate_section-Safe rt accounts base n h
