-- ===== src/Reports.antt =====
-- src/bitcoiners_dca/persistence/reports.py: the export of the trades of a year. Instants are
-- numbers, and `year_start` stands for the first instant of a year. The cells hold the numbers as
-- they are printed, rounded to two or eight decimals; the file and the texts are left out. Every
-- pair has a "/", and rows of one instant come in the table's order.
pub mod Years
pub mod Sums
use bitcoiners_dca.Prelude.{
  ℕ, zero, suc, ◌+◌, ◌*◌, ◌^◌, String, Bool, ◌&&◌, Option, none, some, List, [], ◌∷◌, map, keep,
  leb, ltb, if◌then◌else◌, str_eq, ◌>>=◌,
}
use bitcoiners_dca.Prelude.Dict.{Dict, lookup}
use bitcoiners_dca.Prelude.Sort.{sort}
use bitcoiners_dca.Decimal.{Decimal, whole, add, mul, div, round_half_even}
use bitcoiners_dca.Prelude.Int.{signed, is_neg, magnitude}
use bitcoiners_dca.Models.{OrderSide, Pair, positive}
use bitcoiners_dca.Risk.{is_buy_side}
use bitcoiners_dca.Persistence.Totals.{Row, is_btc, is_against_aed, stable_aed_rates, add_value}

-- A row of `trades` with the columns that only the export reads.
pub record ReportRow : Type 0 where
  pub row : Row
  pub exchange : String
  pub order_id : String
  pub price_avg : Option Decimal
  pub fee_quote : Option Decimal

-- A line of the table.
pub record ReportLine : Type 0 where
  pub timestamp : ℕ
  pub exchange : String
  pub pair : Pair
  pub side : OrderSide
  pub amount_aed : Decimal
  pub amount_btc : Decimal
  pub price : Decimal
  pub fee : Decimal
  pub fee_ccy : String
  pub cost_basis : Option Decimal
  pub order_id : String

-- `Decimal(str(value or 0))`
abbrev pub or_zero : Option Decimal → Decimal
or_zero none = whole 0
or_zero (some d) = d

-- `_stable_rate`
unfoldable pub stable_rate : Dict Decimal → String → Option Decimal
unfolding lookup
stable_rate rates ccy = if str_eq ccy "AED" then some (whole 1) else lookup ccy rates

-- `_fee_to_aed`
unfoldable pub fee_to_aed : Dict Decimal → Decimal → String → Option Decimal
unfolding stable_rate
fee_to_aed rates fee ccy = stable_rate rates ccy >>= λ rate. some (mul fee rate)

-- `row_cost_basis`
unfoldable pub row_cost_basis : Dict Decimal → ReportRow → Option Decimal
unfolding stable_rate
row_cost_basis rates r =
    let amount = or_zero r.row.trade.amount_quote in
    if is_buy_side r.row.trade.side && is_btc r.row
    then if is_against_aed r.row
      then some amount
      else (stable_rate rates r.row.trade.pair.quote >>= λ rate. some (mul amount rate))
    else none

-- The numbers that `:.2f` and `:.8f` print.
unfoldable pub two_places : Decimal → Decimal
unfolding round_half_even
two_places d = signed (is_neg d) (round_half_even (magnitude d) (10 ^ 58) * 10 ^ 58)

unfoldable pub eight_places : Decimal → Decimal
unfolding round_half_even
eight_places d = signed (is_neg d) (round_half_even (magnitude d) (10 ^ 52) * 10 ^ 52)

unfoldable pub line_for : Dict Decimal → ReportRow → ReportLine
unfolding row_cost_basis two_places eight_places
line_for rates r = record {
  timestamp = r.row.trade.timestamp;
  exchange = r.exchange;
  pair = r.row.trade.pair;
  side = r.row.trade.side;
  amount_aed = two_places (or_zero r.row.trade.amount_quote);
  amount_btc = eight_places (or_zero r.row.amount_base);
  price = two_places (or_zero r.price_avg);
  fee = eight_places (or_zero r.fee_quote);
  fee_ccy = r.row.trade.pair.quote;
  cost_basis = row_cost_basis rates r >>= λ basis. some (two_places basis);
  order_id = r.order_id;
}

pub record Summary : Type 0 where
  pub total_aed : Decimal
  pub total_btc : Decimal
  pub total_fees : Decimal
  pub total_cost_basis_aed : Decimal

abbrev no_trades : Summary
no_trades = record {
  total_aed = whole 0;
  total_btc = whole 0;
  total_fees = whole 0;
  total_cost_basis_aed = whole 0;
}

-- What a buy adds to the totals.
abbrev pub add_buy : Dict Decimal → ReportRow → Summary → Summary
add_buy rates r s = record {
  total_aed =
      if is_against_aed r.row
      then add s.total_aed (or_zero r.row.trade.amount_quote)
      else s.total_aed;
  total_btc = if is_btc r.row then add s.total_btc (or_zero r.row.amount_base) else s.total_btc;
  total_fees =
      add_value (fee_to_aed rates (or_zero r.fee_quote) r.row.trade.pair.quote) s.total_fees;
  total_cost_basis_aed = add_value (row_cost_basis rates r) s.total_cost_basis_aed;
}

-- The totals of the loop over the rows.
unfoldable pub sum_up : Dict Decimal → List ReportRow → Summary → Summary
unfolding fee_to_aed row_cost_basis
sum_up rates [] s = s
sum_up rates (r ∷ rows) s =
    sum_up rates rows (if is_buy_side r.row.trade.side then add_buy rates r s else s)

-- `WHERE timestamp >= ? AND timestamp < ?`
abbrev pub in_window : ℕ → ℕ → ReportRow → Bool
in_window start end r = leb start r.row.trade.timestamp && ltb r.row.trade.timestamp end

abbrev pub earlier : ReportRow → ReportRow → Bool
earlier x y = leb x.row.trade.timestamp y.row.trade.timestamp

-- `ORDER BY timestamp ASC`
unfoldable pub selected : ℕ → ℕ → List ReportRow → List ReportRow
unfolding sort
selected start end rows = sort earlier (keep (in_window start end) rows)

-- The totals as they are printed.
abbrev pub printed : Summary → Summary
printed s = record {
  total_aed = two_places s.total_aed;
  total_btc = eight_places s.total_btc;
  total_fees = two_places s.total_fees;
  total_cost_basis_aed = two_places s.total_cost_basis_aed;
}

pub record Report : Type 0 where
  pub lines : List ReportLine
  pub summary : Summary
  pub average_price : Option Decimal

-- The report on the rows between two instants. The rates come from all rows.
unfoldable pub report_on : ℕ → ℕ → List ReportRow → Report
unfolding selected line_for sum_up two_places eight_places stable_aed_rates
report_on start end rows =
    let rates = stable_aed_rates (map (λ r. r.row) rows) in
    let chosen = selected start end rows in
    let totals = sum_up rates chosen no_trades in
    record {
      lines = map (line_for rates) chosen;
      summary = printed totals;
      average_price =
          if positive totals.total_btc
          then (div totals.total_aed totals.total_btc >>= λ price. some (two_places price))
          else none;
    }

abbrev one_day : ℕ
one_day = 86_400

-- `export_uae_tax_csv`, at the time `now`; the year 0 counts as none.
unfoldable pub export_uae_tax_csv : (ℕ → ℕ) → ℕ → List ReportRow → Option ℕ → Report
unfolding report_on
export_uae_tax_csv year_start now rows none = report_on (year_start 1970) (now + one_day) rows
export_uae_tax_csv year_start now rows (some zero) =
    report_on (year_start 1970) (now + one_day) rows
export_uae_tax_csv year_start now rows (some (suc y)) =
    report_on (year_start (suc y)) (year_start (suc (suc y))) rows
