-- ===== src/Reports/Sums.antt =====
-- The totals below the table.
use bitcoiners_dca.Prelude.{
  ◌≡◌, refl, sym, ◌∙◌, ap, ℕ, Bool, true, false, ◌&&◌, Option, some, List, [], ◌∷◌, map, All,
  if◌then◌else◌,
}
use bitcoiners_dca.Prelude.Dict.{Dict}
use bitcoiners_dca.Decimal.{Decimal, add}
use bitcoiners_dca.Risk.{is_buy_side}
use bitcoiners_dca.Persistence.Totals.{
  is_filled_buy, is_btc, sum_decimal, add_value, total_btc_bought, stable_aed_rates,
}
use bitcoiners_dca.Reports.{
  ReportRow, Summary, sum_up, add_buy, selected, report_on, or_zero, eight_places,
}

-- A filled buy or a sale, with a known amount of the base currency.
abbrev pub IsComplete : ReportRow → Type 0
IsComplete r =
    (is_buy_side r.row.trade.side ≡ is_filled_buy r.row)
    × (some (or_zero r.row.amount_base) ≡ r.row.amount_base)

module _ (rates : Dict Decimal) where
  btc_step :
      (b f btc : Bool) (o : Option Decimal) (x t : Decimal)
      → b ≡ f
      → some x ≡ o
      → (if f && btc then add_value o t else t) ≡ (if b then (if btc then add t x else t) else t)
  btc_step false f btc o x t e k = rw (← e) refl
  btc_step true f false o x t e k = rw (← e) refl
  btc_step true f true o x t e k = rw (← e, ← k) refl

  btc_of_if :
      (b : Bool) (x s : Summary)
      → (if b then x else s).total_btc ≡ (if b then x.total_btc else s.total_btc)
  btc_of_if true x s = refl
  btc_of_if false x s = refl

  btc_sum :
      (rows : List ReportRow) (s : Summary)
      → All IsComplete rows
      → (sum_up rates rows s).total_btc
        ≡ sum_decimal
            (λ r. r.amount_base)
            (λ r. is_filled_buy r && is_btc r)
            (map (λ r. r.row) rows)
            s.total_btc
  unfolding sum_up sum_decimal
  btc_sum [] s h = refl
  btc_sum (r ∷ rows) s h =
      let next = if is_buy_side r.row.trade.side then add_buy rates r s else s in
      let step =
        btc_of_if (is_buy_side r.row.trade.side) (add_buy rates r s) s
        ∙ sym (
            btc_step (is_buy_side r.row.trade.side) (is_filled_buy r.row) (is_btc r.row)
              r.row.amount_base (or_zero r.row.amount_base) s.total_btc h.0.0 h.0.1) in
      btc_sum rows next h.1
      ∙ ap
          (λ t.
            sum_decimal (λ q. q.amount_base) (λ q. is_filled_buy q && is_btc q)
              (map (λ q. q.row) rows) t)
          step

-- Where every row of the report is a filled buy or a sale of a known amount, the total of BTC that
-- the report prints is what the database says was bought in these rows, to eight decimals.
pub report_on-totals :
    (start end : ℕ) (rows : List ReportRow)
    → All IsComplete (selected start end rows)
    → (report_on start end rows).summary.total_btc
      ≡ eight_places (total_btc_bought (map (λ r. r.row) (selected start end rows)))
unfolding report_on total_btc_bought
report_on-totals start end rows h =
    ap eight_places
      (btc_sum (stable_aed_rates (map (λ r. r.row) rows)) (selected start end rows) _ h)
