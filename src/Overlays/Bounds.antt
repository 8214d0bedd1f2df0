-- ===== src/Overlays/Bounds.antt =====
-- How far each overlay can move the amount.
use bitcoiners_dca.Prelude.{◌≡◌, false, arith}
use bitcoiners_dca.Prelude.Int.{◌≤ℤ◌}
use bitcoiners_dca.Decimal.{Decimal, literal, whole}
use bitcoiners_dca.Overlays.{
  OverlayContext, VolatilityWeighted, OnchainSmartTrigger, clamp, apply_volatility, apply_onchain,
  capped_multiplier,
}

-- The on-chain overlay never skips a cycle and never leaves [0.5, 2], however it is configured.
pub apply_onchain_bounds :
    (o : OnchainSmartTrigger) (ctx : OverlayContext)
    → let r = apply_onchain o ctx in
      (r.skip ≡ false) × (literal 5 1 ≤ℤ r.multiplier) × (r.multiplier ≤ℤ literal 20 1)
unfolding apply_onchain capped_multiplier
apply_onchain_bounds o ctx = ground arith

clamp_bounds :
    (low high f : Decimal) → low ≤ℤ high → (low ≤ℤ clamp low high f) × (clamp low high f ≤ℤ high)
clamp_bounds low high f h = ground arith

-- With bounds around 1 the volatility overlay never skips, and its multiplier keeps to the bounds.
pub apply_volatility_bounds :
    (o : VolatilityWeighted) (ctx : OverlayContext)
    → o.min_factor ≤ℤ whole 1
    → whole 1 ≤ℤ o.max_factor
    → let r = apply_volatility o ctx in
      (r.skip ≡ false) × (o.min_factor ≤ℤ r.multiplier) × (r.multiplier ≤ℤ o.max_factor)
unfolding apply_volatility
apply_volatility_bounds o ctx low high = ground arith
