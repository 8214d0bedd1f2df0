-- ===== src/Backtest.antt =====
-- src/bitcoiners_dca/core/backtest.py: the replay of the strategy over a history of prices. A date
-- is its ordinal number; the day of its month is a parameter. The loop over the days runs on fuel.
pub mod Days
use bitcoiners_dca.Prelude.{
  ◌>>=◌, ℕ, zero, suc, ◌+◌, ◌-◌, ◌%◌, Bool, true, false, ◌&&◌, Option, none, some, List, [], ◌∷◌,
  length, leb, if◌then◌else◌, ◌==◌, map, keep, ◌*◌,
}
use bitcoiners_dca.Prelude.Int.{leb_ℤ, negsuc}
use bitcoiners_dca.Prelude.Sort.{sort}
use bitcoiners_dca.Decimal.{Decimal, whole, add, sub, mul, div, quotient, sum_from, unit}
use bitcoiners_dca.Models.{nonzero, positive}

-- `unknown` is any other text.
pub data Frequency : Type 0 where
  daily weekly monthly unknown : Frequency

pub record BacktestConfig : Type 0 where
  pub base_amount_aed : Decimal
  pub frequency : Frequency
  pub day_of_week : ℕ
  pub taker_fee_pct : Decimal
  pub dip_overlay_enabled : Bool
  pub dip_lookback_days : ℕ
  pub dip_threshold_pct : Decimal
  pub dip_multiplier : Decimal

pub record BacktestCycle : Type 0 where
  pub day : ℕ
  pub price_aed : Decimal
  pub aed_spent : Decimal
  pub btc_bought : Decimal
  pub overlay_applied : Bool

-- A history: days with their prices.
abbrev pub Prices : Type 0
Prices = List (ℕ × Decimal)

-- `out[p.day] = p.price`
unfoldable pub put : ℕ → Decimal → Prices → Prices
put day price [] = (day, price) ∷ []
put day price ((d, p) ∷ rest) = if day == d then (d, price) ∷ rest else (d, p) ∷ put day price rest

unfoldable pub put_all : Prices → Prices → Prices
unfolding put
put_all [] out = out
put_all ((day, price) ∷ points) out = put_all points (put day price out)

-- `_price_lookup`
unfoldable pub price_lookup : Prices → Prices
unfolding put_all
price_lookup points = put_all points []

abbrev pub price_on : ℕ → Prices → Option Decimal
price_on day [] = none
price_on day ((d, p) ∷ rest) = if day == d then some p else price_on day rest

abbrev pub keys : Prices → List ℕ
keys [] = []
keys ((d, p) ∷ rest) = d ∷ keys rest

abbrev pub last_of : ℕ → List ℕ → ℕ
last_of d [] = d
last_of d (x ∷ xs) = last_of x xs

-- `date.weekday()`
abbrev pub weekday : ℕ → ℕ
weekday day = (day + 6) % 7

-- `_should_fire`, on the day of the month; `none` is the exception.
abbrev pub should_fire : ℕ → ℕ → BacktestConfig → Frequency → Option Bool
should_fire day_in_month day cfg daily = some true
should_fire day_in_month day cfg weekly = some (weekday day == cfg.day_of_week)
should_fire day_in_month day cfg monthly = some (day_in_month == 1)
should_fire day_in_month day cfg unknown = none

-- `_last_price_on_or_before`, with so many days still to look at.
unfoldable pub last_price_within : ℕ → Prices → ℕ → Option Decimal
last_price_within zero by_day day = none
last_price_within (suc n) by_day day =
    let before = last_price_within n by_day (day - 1) in
    elim (price_on day by_day) [ none ↦ before | some p ↦ some p ]

unfoldable pub last_price_on_or_before : Prices → ℕ → Option Decimal
unfolding last_price_within
last_price_on_or_before by_day target = last_price_within 8 by_day target

-- `if ref_price and ref_price > 0`, and then the test of the fall.
abbrev pub is_dip : BacktestConfig → Decimal → Option Decimal → Bool
is_dip cfg price none = false
is_dip cfg price (some ref_price) =
    positive ref_price
    && leb_ℤ (mul (quotient (sub price ref_price) ref_price) (whole 100)) cfg.dip_threshold_pct

abbrev pub price_with_fee : BacktestConfig → Decimal → Decimal
price_with_fee cfg price = mul price (add (whole 1) cfg.taker_fee_pct)

abbrev pub amount_for : BacktestConfig → Bool → Decimal
amount_for cfg true = mul cfg.base_amount_aed cfg.dip_multiplier
amount_for cfg false = cfg.base_amount_aed

-- What comes of a replay: its cycles, an exception, or no end within the fuel.
pub data Replay : Type 0 where
  replayed : List BacktestCycle → Replay
  raised unfinished : Replay

-- The bounds of the replay, its prices and its settings.
module _ (day_of_month : ℕ → ℕ) (cfg : BacktestConfig) (by_day : Prices) (end_day : ℕ) where
  abbrev pub dips_on : ℕ → Decimal → Bool
  dips_on day price =
      cfg.dip_overlay_enabled
      && is_dip cfg price (last_price_on_or_before by_day (day - cfg.dip_lookback_days))

  -- The cycle of one day; `none` is a division by zero.
  unfoldable pub cycle_on : ℕ → Decimal → Option BacktestCycle
  unfolding last_price_on_or_before
  cycle_on day price = do
    btc ← div (amount_for cfg (dips_on day price)) (price_with_fee cfg price)
    some (record {
      day = day;
      price_aed = price;
      aed_spent = amount_for cfg (dips_on day price);
      btc_bought = btc;
      overlay_applied = dips_on day price;
    })

  abbrev pub add_cycle : Option BacktestCycle → Replay → Replay
  add_cycle none rest = raised
  add_cycle (some c) (replayed cs) = replayed (c ∷ cs)
  add_cycle (some c) raised = raised
  add_cycle (some c) unfinished = unfinished

  -- The body of the loop, where `rest` is what the later days give.
  abbrev pub replay_day : Option Bool → Option Decimal → ℕ → Replay → Replay
  replay_day none price day rest = raised
  replay_day (some false) price day rest = rest
  replay_day (some true) none day rest = rest
  replay_day (some true) (some price) day rest = add_cycle (cycle_on day price) rest

  -- `while current <= end_day`
  unfoldable pub replay_from : ℕ → ℕ → Replay
  unfolding cycle_on
  replay_from zero current = if leb current end_day then unfinished else replayed []
  replay_from (suc fuel) current =
      let rest = replay_from fuel (suc current) in
      if leb current end_day
      then replay_day (should_fire (day_of_month current) current cfg cfg.frequency)
          (price_on current by_day) current rest
      else replayed []

pub record BacktestResult : Type 0 where
  pub replay : Replay
  pub start_day : Option ℕ
  pub end_day : Option ℕ

module _ (day_of_month : ℕ → ℕ) (cfg : BacktestConfig) where
  abbrev pub run_between : Prices → List ℕ → BacktestResult
  run_between by_day [] = record { replay = replayed []; start_day = none; end_day = none }
  run_between by_day (start ∷ later) =
      let end_day = last_of start later in
      record {
        replay = replay_from day_of_month cfg by_day end_day (end_day + 1 - start) start;
        start_day = some start;
        end_day = some end_day;
      }

  -- `run_backtest`, with fuel for every day between the first and the last price.
  unfoldable pub run_backtest : Prices → BacktestResult
  unfolding price_lookup replay_from sort
  run_backtest points =
      let by_day = price_lookup points in run_between by_day (sort leb (keys by_day))

-- `naive_baseline`
unfoldable pub naive_baseline : (ℕ → ℕ) → BacktestConfig → Prices → BacktestResult
unfolding run_backtest
naive_baseline day_of_month cfg points =
    run_backtest day_of_month
      (record cfg {
        dip_overlay_enabled = false;
        dip_lookback_days = 7;
        dip_threshold_pct = negsuc (10 * unit - 1);
        dip_multiplier = whole 2;
      })
      points

-- `total_aed_spent` and `total_btc_bought`
unfoldable pub total_aed_spent : List BacktestCycle → Decimal
unfolding sum_from
total_aed_spent cs = sum_from (whole 0) (map (λ c. c.aed_spent) cs)

unfoldable pub total_btc_bought : List BacktestCycle → Decimal
unfolding sum_from
total_btc_bought cs = sum_from (whole 0) (map (λ c. c.btc_bought) cs)

-- `avg_price_aed`
unfoldable pub avg_price_aed : List BacktestCycle → Decimal
unfolding total_aed_spent total_btc_bought
avg_price_aed cs =
    if nonzero (total_btc_bought cs)
    then quotient (total_aed_spent cs) (total_btc_bought cs)
    else whole 0

-- `overlay_triggers`
abbrev pub overlay_triggers : List BacktestCycle → ℕ
overlay_triggers cs = length (keep (λ c. c.overlay_applied) cs)
