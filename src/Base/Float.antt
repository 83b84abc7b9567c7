-- ===== src/Base/Float.antt =====
-- The 64-bit floating-point numbers of the client: an abstract type with the operations that the
-- modelled code applies to it. No law is assumed, so that nothing depends on rounding or on NaN.
use solana_atomic_arbitrage.Base.{Bool}

pub record Float {ℓ} (F : Type ℓ) : Type ℓ where
  pub zero_f64 : F
  pub add : F → F → F
  pub neg : F → F
  pub max : F → F → F
  pub lt : F → F → Bool
