-- ===== src/Tests/Export.antt =====
-- Reports on three trades of two years. A year has 100 instants here.
use bitcoiners_dca.Prelude.{
  ℕ, suc, ◌*◌, ◌≤◌, ◌≡◌, refl, none, some, String, List, [], ◌∷◌, map, arith,
}
use bitcoiners_dca.Decimal.{whole}
use bitcoiners_dca.Models.{buy, filled}
use bitcoiners_dca.Persistence.Totals.{total_btc_bought}
use bitcoiners_dca.Reports.{eight_places, ReportRow, report_on, selected}
use bitcoiners_dca.Reports.Years.{yearly_lines, yearly_lines_lem}
use bitcoiners_dca.Reports.Sums.{report_on-totals}
use bitcoiners_dca.Tests.Venue.{btc_aed}

abbrev bought_at : ℕ → String → ReportRow
bought_at t id = record {
  row = record {
    trade = record {
      side = buy;
      status = filled;
      timestamp = t;
      amount_quote = some (whole 400);
      amount_quote_aed = some (whole 400);
      pair = btc_aed;
    };
    amount_base = some (whole 1);
  };
  exchange = "okx";
  order_id = id;
  price_avg = some (whole 400);
  fee_quote = none;
}

abbrev trades : List ReportRow
trades = bought_at 230 "c" ∷ bought_at 120 "a" ∷ bought_at 199 "b" ∷ []

abbrev start_of : ℕ → ℕ
start_of y = y * 100

start_of-le : (y : ℕ) → start_of y ≤ start_of (suc y)
start_of-le y = omega arith

yearly_lines_example :
    yearly_lines start_of start_of-le 500 trades 0 2
    ≡ (report_on (start_of 1) (start_of 3) trades).lines
yearly_lines_example = yearly_lines_lem start_of start_of-le 500 trades 0 2

report_on-totals_example :
    (report_on 100 200 trades).summary.total_btc
    ≡ eight_places (total_btc_bought (map (λ r. r.row) (selected 100 200 trades)))
unfolding selected
report_on-totals_example = report_on-totals 100 200 trades ((refl, refl), ((refl, refl), tt))
