-- ===== src/Funding.antt =====
-- src/bitcoiners_dca/core/funding_monitor.py: readings of the funding rate, and the alerts that
-- they raise. The time of an instrument's last alert is kept in the `meta` table. The HTTP calls
-- are parameters and the alert's text is left out. Exchanges are in lower case, and a check reads
-- the clock once.
pub mod Cooldown
use bitcoiners_dca.Prelude.{
  ℕ, ◌+◌, ◌-◌, ◌*◌, String, ◌<>◌, Bool, true, false, ◌&&◌, ◌||◌, not, Option, none, some, List, [],
  ◌∷◌, ltb, if◌then◌else◌, ◌==◌, str_eq,
}
use bitcoiners_dca.Prelude.Int.{leb_ℤ}
use bitcoiners_dca.Prelude.Dict.{Dict, lookup, assign}
use bitcoiners_dca.Decimal.{Decimal, whole, mul, quotient}

pub record FundingReading : Type 0 where
  pub instrument : String
  pub exchange : String
  pub rate_per_period : Decimal
  pub annualized_pct : Decimal
  pub settles_at : ℕ

-- OKX's answer: the rate and the two times in milliseconds, the first absent in older answers.
pub record FundingData : Type 0 where
  pub funding_rate : Decimal
  pub funding_time : Option ℕ
  pub next_funding_time : ℕ

pub record FundingMonitor : Type 0 where
  pub alert_threshold_pct : Decimal
  pub alert_negative_threshold_pct : Decimal
  pub cooldown : ℕ
  pub instruments : List (String × String)

abbrev ms_per_year : ℕ
ms_per_year = 365 * 24 * 60 * 60 * 1000

abbrev default_fundings_per_year : ℕ
default_fundings_per_year = 3 * 365

abbrev int_or_zero : Option ℕ → ℕ
int_or_zero none = 0
int_or_zero (some n) = n

-- From `fundingTime` and `nextFundingTime`, if both are there and in order.
unfoldable pub fundings_per_year : ℕ → ℕ → Decimal
fundings_per_year ft nft =
    if not (ft == 0) && ltb ft nft
    then quotient (whole ms_per_year) (whole (nft - ft))
    else whole default_fundings_per_year

-- `_fetch_okx` on OKX's answer
unfoldable pub reading_of : String → FundingData → FundingReading
unfolding fundings_per_year
reading_of symbol d = record {
  instrument = symbol;
  exchange = "okx";
  rate_per_period = d.funding_rate;
  annualized_pct =
      mul (mul d.funding_rate (fundings_per_year (int_or_zero d.funding_time) d.next_funding_time))
        (whole 100);
  settles_at = d.next_funding_time;
}

abbrev add_reading : String → Option FundingData → List FundingReading → List FundingReading
add_reading symbol none rest = rest
add_reading symbol (some d) rest = reading_of symbol d ∷ rest

-- `poll`: other exchanges than OKX, and failed fetches, give nothing.
unfoldable pub poll : (String → Option FundingData) → List (String × String) → List FundingReading
unfolding reading_of
poll fetch [] = []
poll fetch ((exchange, symbol) ∷ instruments) =
    let rest = poll fetch instruments in
    if str_eq exchange "okx" then add_reading symbol (fetch symbol) rest else rest

-- `_meta_key` of the last alert
unfoldable pub meta_key : FundingReading → String
meta_key r = "funding_monitor." <> r.exchange <> "." <> r.instrument <> ".last_alert"

-- The `meta` table's times of last alerts; `none` inside is a text that is no time.
abbrev pub Meta : Type 0
Meta = Dict (Option ℕ)

abbrev pub last_alert : Option (Option ℕ) → Option ℕ
last_alert none = none
last_alert (some t) = t

-- `now - last < self.cooldown`
abbrev pub within : ℕ → ℕ → Option ℕ → Bool
within cooldown now none = false
within cooldown now (some last) = ltb now (last + cooldown)

-- `_in_cooldown`
unfoldable pub in_cooldown : ℕ → ℕ → String → Meta → Bool
unfolding lookup
in_cooldown cooldown now key meta = within cooldown now (last_alert (lookup key meta))

abbrev pub is_extreme : FundingMonitor → FundingReading → Bool
is_extreme m r =
    leb_ℤ m.alert_threshold_pct r.annualized_pct
    || leb_ℤ r.annualized_pct m.alert_negative_threshold_pct

-- `evaluate_alert`: whether there is a message, and the table after it.
unfoldable pub evaluate_alert : FundingMonitor → ℕ → FundingReading → Meta → Bool × Meta
unfolding in_cooldown meta_key assign
evaluate_alert m now r meta =
    if is_extreme m r
    then (if in_cooldown m.cooldown now (meta_key r) meta
        then (false, meta)
        else (true, assign (meta_key r) (some now) meta))
    else (false, meta)

abbrev pub logged : Bool → ℕ → String → List (String × ℕ) → List (String × ℕ)
logged true now key log = (key, now) ∷ log
logged false now key log = log

-- The funding job over readings in turn, with the alerts sent so far, newest first.
unfoldable pub run_checks :
    FundingMonitor → List (ℕ × FundingReading) → Meta → List (String × ℕ) → Meta × List (String × ℕ)
unfolding evaluate_alert
run_checks m [] meta log = (meta, log)
run_checks m ((now, r) ∷ rest) meta log =
    let (alert, meta') = evaluate_alert m now r meta in
    run_checks m rest meta' (logged alert now (meta_key r) log)
