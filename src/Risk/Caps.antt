-- ===== src/Risk/Caps.antt =====
-- The spend caps of `evaluate`.
use bitcoiners_dca.Prelude.{◌≡◌, true, false, Option, none, some, arith, ◌⊎◌}
use bitcoiners_dca.Prelude.Int.{pos, ◌≤ℤ◌, ◌<ℤ◌}
use bitcoiners_dca.Decimal.{Decimal, sub}
use bitcoiners_dca.Risk.{RiskManager, RiskState, evaluate}

-- A cap that is set and not zero bounds the amount.
abbrev pub Bounds : Option Decimal → Decimal → Type 0
Bounds none amount = Unit
Bounds (some m) amount = (m ≡ pos 0) ⊎ (amount ≤ℤ m)

-- What is left of a daily cap that is set and not zero.
abbrev pub BoundsLeft : Option Decimal → Decimal → Decimal → Type 0
BoundsLeft none spent amount = Unit
BoundsLeft (some m) spent amount = (m ≡ pos 0) ⊎ (amount ≤ℤ sub m spent)

-- An amount within an optional ceiling.
abbrev pub Keeps : Option Decimal → Decimal → Type 0
Keeps none amount = Unit
Keeps (some c) amount = amount ≤ℤ c

module _ (rm : RiskManager) (s : RiskState) (spent intended : Decimal) where
  -- An allowed cycle is not paused, has a positive amount, at most the intended one, within the
  -- single-buy cap and within what is left of the daily cap. A cap that is zero counts as not set.
  pub evaluate-Bounds :
      (evaluate rm s spent intended).allow ≡ true
      → let d = evaluate rm s spent intended in
        (s.paused ≡ false)
        × (pos 0 <ℤ d.amount_aed)
        × (d.amount_aed ≤ℤ intended)
        × Bounds rm.max_single_buy_aed d.amount_aed
        × BoundsLeft rm.max_daily_aed spent d.amount_aed
  unfolding evaluate
  evaluate-Bounds h = ground arith

  -- Of an allowed cycle, every amount that keeps to `cap_aed` keeps to the single-buy cap and to
  -- what is left of the daily cap. A cap that is zero counts as not set.
  pub evaluate-cap_aed :
      (amount : Decimal)
      → (evaluate rm s spent intended).allow ≡ true
      → Keeps (evaluate rm s spent intended).cap_aed amount
      → Bounds rm.max_single_buy_aed amount × BoundsLeft rm.max_daily_aed spent amount
  unfolding evaluate
  evaluate-cap_aed amount h k = ground arith
