-- ===== src/Tests/Caps.antt =====
-- The risk manager on concrete settings.
use bitcoiners_dca.Prelude.{◌≡◌, refl, Bool, true, false, none, some, List, [], ◌∷◌, arith}
use bitcoiners_dca.Prelude.Int.{pos, ◌≤ℤ◌, ◌<ℤ◌}
use bitcoiners_dca.Decimal.{whole, sub}
use bitcoiners_dca.Risk.{RiskManager, RiskState, RiskDecision, evaluate}
use bitcoiners_dca.Risk.Caps.{Bounds, BoundsLeft, evaluate-Bounds}
use bitcoiners_dca.Risk.Pausing.{record_all, record_all-auto_pause}

abbrev pub caps : RiskManager
caps = record {
  max_daily_aed = some (whole 1000);
  max_single_buy_aed = some (whole 400);
  max_consecutive_failures = 2;
  has_hook = true;
}

abbrev pub active : RiskState
active = record { paused = false; paused_reason = none; consecutive_failures = 0; alerts = 0 }

-- 700 AED are spent today, so 300 AED are left of the 500 AED that were meant.
abbrev clamped : RiskDecision
clamped = evaluate caps active (whole 700) (whole 500)

clamped_amount : clamped.amount_aed ≡ whole 300
unfolding evaluate sub
clamped_amount = refl

clamped_allow : clamped.allow ≡ true
unfolding evaluate sub
clamped_allow = refl

evaluate-Bounds_example :
    (active.paused ≡ false)
    × (pos 0 <ℤ clamped.amount_aed)
    × (clamped.amount_aed ≤ℤ whole 500)
    × Bounds caps.max_single_buy_aed clamped.amount_aed
    × BoundsLeft caps.max_daily_aed (whole 700) clamped.amount_aed
evaluate-Bounds_example = evaluate-Bounds caps active (whole 700) (whole 500) clamped_allow

clamped_cap : whole 250 ≤ℤ whole 300
clamped_cap = omega arith

abbrev cycles : List Bool
cycles = false ∷ true ∷ false ∷ false ∷ []

record_all-auto_pause_example :
    ((record_all caps cycles active).paused ≡ true) × ((record_all caps cycles active).alerts ≡ 1)
record_all-auto_pause_example = record_all-auto_pause caps (omega arith) cycles active refl refl
