-- ===== src/Dashboard/StrategyForm.antt =====
-- src/bitcoiners_dca/web/dashboard.py: the form of the strategy. The form's numerals are read
-- already: `none` is a text that is no number, or an empty one. The entries of the patch that pass
-- a field on as it is are left out, and `saved` is the patch that goes to the writer.
pub mod Saving
pub mod DailyCap
use bitcoiners_dca.Prelude.{
  ℕ, String, Bool, true, false, not, ◌&&◌, ◌||◌, Option, none, some, if◌then◌else◌, str_eq, ◌>>=◌,
  ◌*◌,
}
use bitcoiners_dca.Prelude.Int.{ℤ, pos, ltb_ℤ, leb_ℤ, is_neg, signed, magnitude}
use bitcoiners_dca.Decimal.{Decimal, whole, literal, unit, mul, quotient, round_half_even}
use bitcoiners_dca.Strategy.Budget.{derive_per_cycle}
use bitcoiners_dca.Config.{StrategySection}
use bitcoiners_dca.Dashboard.{clamp_multiplier, parse_risk_cap}

-- `Decimal(raw_budget)`, where a text that is no number counts as 0.
pub data Budget : Type 0 where
  finite : Decimal → Budget
  infinite_or_nan : Budget

pub record StrategyForm : Type 0 where
  pub budget : Budget
  pub budget_period : String
  pub frequency : String
  pub every_n_hours : Option ℤ
  pub max_daily_aed : Option Decimal
  pub max_single_buy_aed : Option Decimal
  pub dip_multiplier : Option Decimal
  pub boost_multiplier : Option Decimal
  pub dampen_multiplier : Option Decimal

-- The patch, as far as the handler computes it.
pub record StrategyPatch : Type 0 where
  pub amount_aed : Decimal
  pub budget_amount : Decimal
  pub budget_period : String
  pub frequency : String
  pub every_n_hours : ℤ
  pub dip_multiplier : Decimal
  pub boost_multiplier : Decimal
  pub dampen_multiplier : Decimal
  pub max_daily_aed : Option Decimal
  pub max_single_buy_aed : Option Decimal

-- `crashed` is the ValueError of an unknown period or frequency.
pub data Outcome : Type 0 where
  refused_budget refused_ceiling refused_without_cap crashed : Outcome
  saved : StrategyPatch → Outcome

-- `max(1, int(...))`, and 1 for a text that is no number
abbrev pub hours_of : Option ℤ → ℤ
hours_of none = pos 1
hours_of (some n) = if ltb_ℤ n (pos 1) then pos 1 else n

-- `quantize(Decimal("1"))`
unfoldable pub quantize_whole : Decimal → Decimal
unfolding round_half_even
quantize_whole d = signed (is_neg d) (round_half_even (magnitude d) unit * unit)

-- The table of the cycles in a day, with 1 for an unknown frequency.
unfoldable pub cycles_per_day : String → ℤ → Decimal
unfolding quotient
cycles_per_day frequency n =
    if str_eq frequency "hourly"
    then quotient (whole 24) (signed (is_neg n) (magnitude n * unit))
    else if str_eq frequency "daily"
    then whole 1
    else if str_eq frequency "weekly"
    then literal 143 3
    else if str_eq frequency "monthly"
    then literal 33 3
    else whole 1

-- `suggested_daily`
unfoldable pub suggested_daily : Decimal → Decimal → Decimal
unfolding quantize_whole mul
suggested_daily amount per_day = quantize_whole (mul (mul amount per_day) (whole 2))

abbrev pub daily_or : Option Decimal → Decimal → Option Decimal
daily_or none suggested = some suggested
daily_or (some cap) suggested = some cap

abbrev pub is_set : Option Decimal → Bool
is_set none = false
is_set (some cap) = true

unfoldable pub patch_for : StrategyForm → Decimal → Decimal → StrategyPatch
unfolding clamp_multiplier parse_risk_cap cycles_per_day suggested_daily
patch_for f budget amount = record {
  amount_aed = amount;
  budget_amount = budget;
  budget_period = f.budget_period;
  frequency = f.frequency;
  every_n_hours = hours_of f.every_n_hours;
  dip_multiplier = clamp_multiplier (whole 1) (whole 5) f.dip_multiplier;
  boost_multiplier = clamp_multiplier (literal 5 1) (whole 2) f.boost_multiplier;
  dampen_multiplier = clamp_multiplier (literal 5 1) (whole 2) f.dampen_multiplier;
  max_daily_aed =
      daily_or (parse_risk_cap f.max_daily_aed)
        (suggested_daily amount (cycles_per_day f.frequency (hours_of f.every_n_hours)));
  max_single_buy_aed = parse_risk_cap f.max_single_buy_aed;
}

-- The handler from the derived amount on.
abbrev pub judge_amount : StrategyForm → Decimal → Option Decimal → Outcome
judge_amount f budget none = crashed
judge_amount f budget (some amount) =
    if ltb_ℤ (whole 100_000) amount
    then refused_ceiling
    else if ltb_ℤ (whole 5000) amount && not (is_set (parse_risk_cap f.max_single_buy_aed))
    then refused_without_cap
    else saved (patch_for f budget amount)

abbrev pub judge_budget : StrategyForm → Budget → Outcome
judge_budget f infinite_or_nan = refused_budget
judge_budget f (finite budget) =
    if leb_ℤ budget (pos 0)
    then refused_budget
    else judge_amount f budget
        (derive_per_cycle budget f.budget_period f.frequency (hours_of f.every_n_hours))

-- `strategy_save`
unfoldable pub strategy_save : StrategyForm → Outcome
unfolding patch_for parse_risk_cap
strategy_save f = judge_budget f f.budget

-- What the saved patch makes of the section `strategy` of the file.
abbrev pub section_of : StrategyPatch → StrategySection
section_of p = record {
  amount_aed = p.amount_aed;
  budget_amount = some p.budget_amount;
  budget_period = p.budget_period;
  frequency = p.frequency;
  every_n_hours = p.every_n_hours;
}
