-- ===== src/Dashboard/StrategyForm/DailyCap.antt =====
-- The daily cap that the form makes up where none is given, and what it leaves of the cycles.
use mathlib.Core.Path.{subst}
use bitcoiners_dca.Prelude.{
  ℕ, zero, suc, ◌+◌, ◌*◌, ◌^◌, ◌≤◌, ◌<◌, ◌≡◌, refl, ◌∙◌, ap, inl, inr, Bool, true, false, Option,
  none, some, List, String, arith,
}
use bitcoiners_dca.Prelude.Int.{
  ℤ, pos, negsuc, pos_part, neg_part, signed, is_neg, magnitude, ◌-ℤ◌, -ℤ_parts, ◌≤ℤ◌, ◌<ℤ◌,
}
use bitcoiners_dca.Decimal.{Decimal, whole, literal, unit, mul, sub, round_digits, round_half_even}
use bitcoiners_dca.Decimal.Rounding.{round_digits_le, round_digits_ge, round_half_even_near}
use bitcoiners_dca.Risk.{RiskManager}
use bitcoiners_dca.Risk.Caps.{BoundsLeft}
use bitcoiners_dca.Router.{SmartRouter}
use bitcoiners_dca.Overlays.{Overlay}
use bitcoiners_dca.Strategy.{Venues, StrategyConfig}
use bitcoiners_dca.Strategy.Cycle.{CycleInput}
use bitcoiners_dca.Strategy.Cycle.Ceiling.{AtLeastOne}
use bitcoiners_dca.Scheduler.{Bot, CycleRow, spent_today, run_dca_cycle}
use bitcoiners_dca.Scheduler.Limits.{LogsWithin, InLimits, decision, run_dca_cycle-LogsWithin}
use bitcoiners_dca.Dashboard.{parse_risk_cap}
use bitcoiners_dca.Dashboard.StrategyForm.{
  StrategyForm, StrategyPatch, saved, strategy_save, suggested_daily, cycles_per_day, hours_of,
  daily_or, patch_for,
}
use bitcoiners_dca.Dashboard.StrategyForm.Saving.{on_budget}

-- The suggestion, where a rate makes `n` of the amount: with about 0.143 cycles a day, or 0.033.
rounded_bounds :
    (a n : ℕ)
    → 8 * unit ≤ a
    → 1000 * n ≤ 143 * (a * unit)
    → 33 * (a * unit) ≤ 1000 * n
    → let c = round_half_even (round_digits (round_digits n unit * (2 * unit)) unit) unit * unit in
      (0 < c) × (4 * c ≤ 3 * a)
rounded_bounds a n h up down =
    let x = round_digits n unit in
    let y = round_digits (x * (2 * unit)) unit in
    let x_le = round_digits_le n unit (omega arith) in
    let x_ge = round_digits_ge n unit (omega arith) in
    let y_le = round_digits_le (x * (2 * unit)) unit (omega arith) in
    let y_ge = round_digits_ge (x * (2 * unit)) unit (omega arith) in
    let near = round_half_even_near y unit (omega arith) in (omega arith, omega arith)

-- The suggestion for a schedule of once a week or once a month.
abbrev pub per_day : Bool → Decimal
per_day true = literal 143 3
per_day false = literal 33 3

suggested_daily_bounds :
    (weekly : Bool) (a : ℕ)
    → 8 * unit ≤ a
    → (c : ℕ) × (suggested_daily (pos a) (per_day weekly) ≡ pos c) × (0 < c) × (4 * c ≤ 3 * a)
unfolding suggested_daily mul
suggested_daily_bounds true a h =
    let (some_cap, small) = rounded_bounds a (a * (143 * 10 ^ 57)) h (omega arith) (omega arith) in
    (_, refl, some_cap, small)
suggested_daily_bounds false a h =
    let (some_cap, small) = rounded_bounds a (a * (33 * 10 ^ 57)) h (omega arith) (omega arith) in
    (_, refl, some_cap, small)

abbrev pub schedule_name : Bool → String
schedule_name true = "weekly"
schedule_name false = "monthly"

cycles_per_day_schedule :
    (weekly : Bool) (n : ℤ) → cycles_per_day (schedule_name weekly) n ≡ per_day weekly
unfolding cycles_per_day
cycles_per_day_schedule true n = refl
cycles_per_day_schedule false n = refl

signed-true_part : (r : ℕ) → pos_part (signed true r) ≡ 0
signed-true_part zero = refl
signed-true_part (suc r) = refl

difference_le :
    (c s : ℕ) (z left : ℤ)
    → pos_part z + s ≡ neg_part z + c
    → left ≤ℤ signed (is_neg z) (round_digits (magnitude z) 1)
    → 4 * pos_part left ≤ 5 * c + 3
difference_le c s z (negsuc m) parts h = omega arith
difference_le c s (pos n) (pos m) parts h = omega (arith, round_digits_le n 1 (omega arith))
difference_le c s (negsuc n) (pos m) parts h =
    omega (arith, signed-true_part (round_digits (suc n) 1))

-- What a positive spend leaves of a cap is not above the cap, but for the rounding.
sub_le : (c s : ℕ) (left : Decimal) → left ≤ℤ sub (pos c) (pos s) → 4 * pos_part left ≤ 5 * c + 3
unfolding sub
sub_le c s left h =
    difference_le c s (pos c -ℤ pos s) left (omega (arith, -ℤ_parts (pos c) (pos s))) h

within_suggestion :
    (weekly : Bool) (a : ℕ) (cap : Option Decimal) (spent x : Decimal)
    → 8 * unit ≤ a
    → whole 0 ≤ℤ spent
    → cap ≡ some (suggested_daily (pos a) (per_day weekly))
    → BoundsLeft cap spent x
    → x <ℤ pos a
within_suggestion weekly a cap (negsuc n) x h spent_ge e bounds = absurd (omega arith)
within_suggestion weekly a cap (pos s) x h spent_ge e bounds =
    let (c, same, some_cap, small) = suggested_daily_bounds weekly a h in
    elim (subst (λ o. BoundsLeft o (pos s) x) (e ∙ ap some same) bounds) [
      | inl zero_cap ↦ absurd (ground arith)
      | inr left ↦ omega (arith, sub_le c s x left)
    ]

module _ (weekly : Bool) (f : StrategyForm) where
  suggested_cap :
      f.frequency ≡ schedule_name weekly
      → parse_risk_cap f.max_daily_aed ≡ none
      → (budget amount : Decimal)
      → (patch_for f budget amount).max_daily_aed ≡ some (suggested_daily amount (per_day weekly))
  unfolding patch_for
  suggested_cap scheduled uncapped budget amount =
      let n = hours_of f.every_n_hours in
      let rate : cycles_per_day f.frequency n ≡ per_day weekly =
        ap (λ t. cycles_per_day t n) scheduled ∙ cycles_per_day_schedule weekly n in
      let made_up = suggested_daily amount (cycles_per_day f.frequency n) in
      ap (λ o. daily_or o made_up) uncapped ∙ ap (λ r. some (suggested_daily amount r)) rate

  -- What keeps to the daily cap of the patch is below its amount.
  abbrev FallsShort : StrategyPatch → Type 0
  FallsShort q =
      whole 8 ≤ℤ q.amount_aed
      → (spent x : Decimal) → whole 0 ≤ℤ spent
      → BoundsLeft q.max_daily_aed spent x
      → x <ℤ q.amount_aed

  patch-FallsShort :
      f.frequency ≡ schedule_name weekly
      → parse_risk_cap f.max_daily_aed ≡ none
      → (budget amount : Decimal) → FallsShort (patch_for f budget amount)
  unfolding patch_for
  patch-FallsShort scheduled uncapped budget (negsuc a) h spent x spent_ge bounds =
      absurd (omega arith)
  patch-FallsShort scheduled uncapped budget (pos a) h spent x spent_ge bounds =
      within_suggestion weekly a (patch_for f budget (pos a)).max_daily_aed spent x (omega arith)
        spent_ge (suggested_cap scheduled uncapped budget (pos a)) bounds

  saved-FallsShort :
      (p : StrategyPatch)
      → strategy_save f ≡ saved p
      → f.frequency ≡ schedule_name weekly
      → parse_risk_cap f.max_daily_aed ≡ none
      → FallsShort p
  unfolding strategy_save
  saved-FallsShort p done scheduled uncapped =
      let (budget, b, passes) = on_budget f f.budget p done in
      subst FallsShort passes.4 (patch-FallsShort scheduled uncapped budget passes.0)

module _ (v : Venues) (upper : String → String) (cfg : StrategyConfig) (router : SmartRouter)
    (overlays : List Overlay) (names : List String) (rm : RiskManager) where
  open v use {World}

  LogsWithin-imp :
      (P Q : Decimal → Type 0) (old new : List CycleRow)
      → ((a : Decimal) → P a → Q a)
      → LogsWithin v upper cfg router overlays names rm P old new
      → LogsWithin v upper cfg router overlays names rm Q old new
  LogsWithin-imp P Q old new h (inl same) = inl same
  LogsWithin-imp P Q old new h (inr (row, added, inl failed)) = inr (row, added, inl failed)
  LogsWithin-imp P Q old new h (inr (row, added, inr within)) =
      inr (row, added, inr (h row.intended_amount_aed within))

  -- After the form is saved with a schedule of once a week or once a month and without a daily cap,
  -- the cap that it makes up is below the amount: under it every scheduled cycle that logs a
  -- success logs less than the saved amount, whatever the overlays, the router and the venues do.
  -- The amount is at least 8 AED, the day's recorded spend is not negative, and the ceiling that
  -- the risk manager hands on is at least 1 AED, if there is one.
  pub strategy_save-underspends :
      (weekly : Bool) (f : StrategyForm) (p : StrategyPatch) (start end : ℕ) (input : CycleInput)
      (b : Bot) (w : World) (acquired : Bool)
      → strategy_save f ≡ saved p
      → f.frequency ≡ schedule_name weekly
      → parse_risk_cap f.max_daily_aed ≡ none
      → rm.max_daily_aed ≡ p.max_daily_aed
      → whole 8 ≤ℤ p.amount_aed
      → whole 0 ≤ℤ spent_today start end b
      → AtLeastOne (decision v upper cfg router overlays names rm start end input b w).cap_aed
      → LogsWithin v upper cfg router overlays names rm
          (λ a. a <ℤ p.amount_aed)
          b.cycle_log
          (run_dca_cycle v upper cfg router overlays names rm acquired start end input b
            w).0.cycle_log
  strategy_save-underspends weekly f p start end input b w acquired done scheduled uncapped capped h
        spent_ge one =
      LogsWithin-imp (InLimits v upper cfg router overlays names rm start end input b w)
        (λ a. a <ℤ p.amount_aed) b.cycle_log _
        (λ a limits.
          saved-FallsShort weekly f p done scheduled uncapped h (spent_today start end b) a spent_ge
            (subst (λ o. BoundsLeft o (spent_today start end b) a) capped limits.1))
        (run_dca_cycle-LogsWithin v upper cfg router overlays names rm start end input b w acquired
          one)
