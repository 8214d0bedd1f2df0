-- ===== src/Persistence/Totals/Rates.antt =====
-- That each stablecoin has a rate of its own, and that the total is the sum that the risk caps use.
use bitcoiners_dca.Prelude.{
  ℕ, All, map, leb, ltb, ◌≡◌, refl, sym, ◌∙◌, ap, inl, inr, String, Bool, true, false, ◌&&◌, Option,
  none, some, List, [], ◌∷◌, if◌then◌else◌, str_eq, Bool-cases,
}
use bitcoiners_dca.Prelude.Dict.{
  Dict, IsUnique, lookup, assign, lookup-assign, lookup-assign_other, str_eq→eq, assign-IsUnique,
}
use bitcoiners_dca.Decimal.{Decimal, whole, quotient}
use bitcoiners_dca.Models.{positive}
use bitcoiners_dca.Persistence.Totals.{
  Row, Bought, bought_or_none, add_row, is_stable_leg, accumulate, rates_of, stable_aed_rates,
  spent_from, total_aed_spent, add_value,
}
use bitcoiners_dca.Risk.{
  is_buy_side, moved_money, add_spend, counts, trade_spend, daily_spend_from, daily_spend_aed,
}

-- What was bought of one asset alone, in the order of the rows.
abbrev pub bought_of : String → List Row → Bought → Bought
bought_of asset [] b = b
bought_of asset (r ∷ rows) b =
    bought_of asset rows
      (if is_stable_leg r && str_eq asset r.trade.pair.base then add_row r b else b)

-- The rate of one asset alone.
abbrev pub own_rate : Bought → Option Decimal
own_rate (aed, units) = if positive units then some (quotient aed units) else none

accumulate-bought :
    (asset : String) (rows : List Row) (acc : Dict Bought)
    → bought_or_none (lookup asset (accumulate rows acc))
      ≡ bought_of asset rows (bought_or_none (lookup asset acc))
unfolding accumulate
accumulate-bought asset [] acc = refl
accumulate-bought asset (r ∷ rows) acc = elim (Bool-cases (is_stable_leg r)) [
  | inr other ↦ rw other (accumulate-bought asset rows acc)
  | inl leg ↦
      let base = r.trade.pair.base in
      let more = add_row r (bought_or_none (lookup base acc)) in
      let go_on = accumulate-bought asset rows (assign base more acc) in
      elim (Bool-cases (str_eq asset base)) [
        | inr differs ↦
            rw (leg, differs)
              (go_on
                ∙ ap (λ o. bought_of asset rows (bought_or_none o))
                    (lookup-assign_other base asset more acc differs))
        | inl same ↦
            let is_base = str_eq→eq asset base same in
            let there =
              ap (λ x. lookup x (assign base more acc)) is_base ∙ lookup-assign base more acc in
            rw (leg, same)
              (go_on
                ∙ ap (λ o. bought_of asset rows (bought_or_none o)) there
                ∙ ap (λ x. bought_of asset rows (add_row r (bought_or_none (lookup x acc))))
                    (sym is_base))
      ]
]

accumulate-IsUnique :
    (rows : List Row) (acc : Dict Bought) → IsUnique acc → IsUnique (accumulate rows acc)
unfolding accumulate
accumulate-IsUnique [] acc unique = unique
accumulate-IsUnique (r ∷ rows) acc unique = elim (Bool-cases (is_stable_leg r)) [
  | inr other ↦ rw other (accumulate-IsUnique rows acc unique)
  | inl leg ↦ rw leg (accumulate-IsUnique rows _ (assign-IsUnique r.trade.pair.base _ acc unique))
]

rates_of-lookup :
    (asset : String) (acc : Dict Bought)
    → IsUnique acc
    → lookup asset (rates_of acc) ≡ own_rate (bought_or_none (lookup asset acc))
unfolding rates_of lookup
rates_of-lookup asset [] unique = refl
rates_of-lookup asset ((a, b) ∷ acc) unique =
    let others = rates_of-lookup asset acc unique.1 in
    elim (Bool-cases (str_eq asset a)) [
      | inl same ↦ elim (Bool-cases (positive b.1)) [
        | inl units ↦ rw (units, same, units) refl
        | inr no_units ↦
            let absent = ap (λ x. lookup x acc) (str_eq→eq asset a same) ∙ unique.0 in
            rw (no_units, same, no_units) (others ∙ ap (λ o. own_rate (bought_or_none o)) absent)
      ]
      | inr differs ↦ elim (Bool-cases (positive b.1)) [
        | inl units ↦ rw (units, differs) others
        | inr no_units ↦ rw (no_units, differs) others
      ]
    ]

-- The rate of an asset is what was spent on it over what was bought of it, from the rows of that
-- asset alone, and it has none if none was bought: no asset's rows enter another's rate.
pub stable_aed_rates-own :
    (asset : String) (rows : List Row)
    → lookup asset (stable_aed_rates rows) ≡ own_rate (bought_of asset rows (whole 0, whole 0))
unfolding stable_aed_rates lookup
stable_aed_rates-own asset rows =
    rates_of-lookup asset (accumulate rows []) (accumulate-IsUnique rows [] tt)
    ∙ ap own_rate (accumulate-bought asset rows [])

same_step :
    (b m w : Bool)
    → w ≡ true
    → (o : Option Decimal) (total : Decimal)
    → (if b && m then add_value o total else total) ≡ add_spend (b && (m && w)) o total
same_step false m w e o total = refl
same_step true false w e o total = refl
same_step true true true e none total = refl
same_step true true true e (some d) total = refl
same_step true true false e o total = absurd (let h : false ≡ true = e in cc)

spent_from-daily :
    (start end : ℕ) (rows : List Row) (total : Decimal)
    → All (λ r. (leb start r.trade.timestamp && ltb r.trade.timestamp end) ≡ true) rows
    → spent_from rows total ≡ daily_spend_from start end total (map (λ r. r.trade) rows)
unfolding spent_from daily_spend_from counts
spent_from-daily start end [] total within = refl
spent_from-daily start end (r ∷ rows) total within =
    let day = leb start r.trade.timestamp && ltb r.trade.timestamp end in
    let step =
      same_step (is_buy_side r.trade.side) (moved_money r.trade.status) day within.0
        (trade_spend r.trade) total in
    ap (spent_from rows) step ∙ spent_from-daily start end rows _ within.1

-- Over rows that all lie between two times, the total spent is the sum that the daily cap reads for
-- the day between them.
pub total_aed_spent-daily :
    (start end : ℕ) (rows : List Row)
    → All (λ r. (leb start r.trade.timestamp && ltb r.trade.timestamp end) ≡ true) rows
    → total_aed_spent rows ≡ daily_spend_aed start end (map (λ r. r.trade) rows)
unfolding total_aed_spent daily_spend_aed
total_aed_spent-daily start end rows within = spent_from-daily start end rows (whole 0) within
