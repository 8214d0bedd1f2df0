-- ===== src/Persistence/Totals.antt =====
-- The sums of src/bitcoiners_dca/persistence/db.py over the `trades` table: what was bought and
-- spent, the rates at which stablecoins were bought, and the cost basis. Pairs are in upper case,
-- an empty amount is `none`, and the rows come in the table's order.
pub mod Rates
use bitcoiners_dca.Prelude.{
  Bool, true, false, not, ◌&&◌, Option, none, some, List, [], ◌∷◌, if◌then◌else◌, str_eq,
}
use bitcoiners_dca.Prelude.Dict.{Dict, lookup, assign}
use bitcoiners_dca.Decimal.{Decimal, whole, add, mul, quotient}
use bitcoiners_dca.Models.{OrderStatus, filled, positive}
use bitcoiners_dca.Risk.{Trade, trade_spend, is_buy_side, moved_money}

-- A row of `trades`, as far as the sums read it.
pub record Row : Type 0 where
  pub trade : Trade
  pub amount_base : Option Decimal

abbrev is_settled : OrderStatus → Bool
is_settled filled = true
is_settled _ = false

-- `side='buy' AND status='filled'`
abbrev pub is_filled_buy : Row → Bool
is_filled_buy r = is_buy_side r.trade.side && is_settled r.trade.status

-- `total += ...`, where there is a value
abbrev pub add_value : Option Decimal → Decimal → Decimal
add_value none total = total
add_value (some d) total = add total d

-- `_sum_decimal`, from a total on
unfoldable pub sum_decimal : (Row → Option Decimal) → (Row → Bool) → List Row → Decimal → Decimal
sum_decimal column chosen [] total = total
sum_decimal column chosen (r ∷ rows) total =
    sum_decimal column chosen rows (if chosen r then add_value (column r) total else total)

abbrev pub is_btc : Row → Bool
is_btc r = str_eq r.trade.pair.base "BTC"

abbrev pub is_against_aed : Row → Bool
is_against_aed r = str_eq r.trade.pair.quote "AED"

-- `total_btc_bought`
unfoldable pub total_btc_bought : List Row → Decimal
unfolding sum_decimal
total_btc_bought rows =
    sum_decimal (λ r. r.amount_base) (λ r. is_filled_buy r && is_btc r) rows (whole 0)

-- `total_aed_spent`, from a total on
unfoldable pub spent_from : List Row → Decimal → Decimal
unfolding trade_spend
spent_from [] total = total
spent_from (r ∷ rows) total = spent_from rows (
    if is_buy_side r.trade.side && moved_money r.trade.status
    then add_value (trade_spend r.trade) total
    else total)

unfoldable pub total_aed_spent : List Row → Decimal
unfolding spent_from
total_aed_spent rows = spent_from rows (whole 0)

-- What was spent on a stablecoin, and how much of it was bought.
abbrev pub Bought : Type 0
Bought = Decimal × Decimal

abbrev pub bought_or_none : Option Bought → Bought
bought_or_none none = (whole 0, whole 0)
bought_or_none (some b) = b

abbrev amount_or_zero : Option Decimal → Decimal
amount_or_zero none = whole 0
amount_or_zero (some d) = d

abbrev pub add_row : Row → Bought → Bought
add_row r (aed, units) =
    (add aed (amount_or_zero r.trade.amount_quote), add units (amount_or_zero r.amount_base))

-- The rows that the rates read: filled buys against AED of something other than BTC.
abbrev pub is_stable_leg : Row → Bool
is_stable_leg r =
    is_filled_buy r && (is_against_aed r && (not (is_btc r) && not (str_eq r.trade.pair.base "")))

unfoldable pub accumulate : List Row → Dict Bought → Dict Bought
unfolding lookup assign
accumulate [] acc = acc
accumulate (r ∷ rows) acc = accumulate rows (
    if is_stable_leg r
    then assign r.trade.pair.base (add_row r (bought_or_none (lookup r.trade.pair.base acc))) acc
    else acc)

-- `{asset: aed / units for ... if units > 0}`
unfoldable pub rates_of : Dict Bought → Dict Decimal
rates_of [] = []
rates_of ((asset, bought) ∷ rest) =
    let others = rates_of rest in
    if positive bought.1 then (asset, quotient bought.0 bought.1) ∷ others else others

-- `stable_aed_rates`
unfoldable pub stable_aed_rates : List Row → Dict Decimal
unfolding accumulate rates_of
stable_aed_rates rows = rates_of (accumulate rows [])

abbrev convert : Option Decimal → Option Decimal → Decimal → Decimal
convert none amount total = total
convert (some rate) amount total = add total (mul (amount_or_zero amount) rate)

-- The loop over the BTC legs that were paid in a stablecoin.
unfoldable pub via_stable : Dict Decimal → List Row → Decimal → Decimal
unfolding lookup
via_stable rates [] total = total
via_stable rates (r ∷ rows) total = via_stable rates rows (
    if is_filled_buy r && (is_btc r && not (is_against_aed r))
    then convert (lookup r.trade.pair.quote rates) r.trade.amount_quote total
    else total)

-- `btc_cost_basis_aed`
unfoldable pub btc_cost_basis_aed : List Row → Decimal
unfolding sum_decimal stable_aed_rates via_stable
btc_cost_basis_aed rows =
    add
      (sum_decimal (λ r. r.trade.amount_quote)
        (λ r. is_filled_buy r && (is_btc r && is_against_aed r)) rows (whole 0))
      (via_stable (stable_aed_rates rows) rows (whole 0))
