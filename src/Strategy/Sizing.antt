-- ===== src/Strategy/Sizing.antt =====
-- How `DCAStrategy.execute` sizes a cycle: the pairs that it sweeps, the least ask, the risk cap,
-- the balance clamp, the budget in the route's input currency, and the stamp of the spent amount.
-- The set of pairs is a list in the order in which they were added.
use bitcoiners_dca.Prelude.{
  String, Bool, false, ◌&&◌, ◌||◌, Option, none, some, List, [], ◌∷◌, ◌++◌, if◌then◌else◌, str_eq,
  any,
}
use bitcoiners_dca.Prelude.Int.{ltb_ℤ}
use bitcoiners_dca.Decimal.{Decimal, whole, literal, mul, quantize, min_of}
use bitcoiners_dca.Models.{Pair, Order, positive}
use bitcoiners_dca.Routing.{TradeRoute, route_input_ccy}
use bitcoiners_dca.Router.{RouteCandidate}
use bitcoiners_dca.Router.Market.{Feed, pair_of}
use bitcoiners_dca.Router.Filters.{floor_in_quote}

abbrev add_new : List Pair → Pair → List Pair
add_new ps p =
    if any (λ (q : Pair). str_eq p.base q.base && str_eq p.quote q.quote) ps
    then ps
    else ps ++ p ∷ []

abbrev sweep_pairs_from : Pair → List Pair → List String → List Pair
sweep_pairs_from pair ps [] = ps
sweep_pairs_from pair ps (i ∷ is) =
    sweep_pairs_from pair
      (if str_eq i pair.quote || str_eq i pair.base
        then ps
        else add_new (add_new ps (pair_of i pair.quote)) (pair_of pair.base i))
      is

abbrev or_usdt : List String → List String
or_usdt [] = "USDT" ∷ []
or_usdt (i ∷ is) = i ∷ is

unfoldable pub sweep_pairs : Pair → List String → List Pair
sweep_pairs pair intermediates = sweep_pairs_from pair (pair ∷ []) (or_usdt intermediates)

abbrev pub asks : Pair → List Feed → List Decimal
asks pair [] = []
asks pair (f ∷ fs) = elim (f.get_ticker pair) [
  | none ↦ asks pair fs
  | some t ↦ t.ask ∷ asks pair fs
]

abbrev pub least : List Decimal → Option Decimal
least [] = none
least (a ∷ rest) = elim (least rest) [ none ↦ some a | some b ↦ some (min_of a b) ]

-- The risk cap.
unfoldable pub risk_clamp : Option Decimal → Decimal → Decimal
risk_clamp none amount = amount
risk_clamp (some c) amount = if ltb_ℤ c amount then c else amount

-- The balance clamp's new amount, for a balance below the amount.
unfoldable pub clamped_to_balance : Decimal → Decimal → Decimal → Decimal
clamped_to_balance max_pct balance amount =
    min_of (quantize (mul balance max_pct)) (quantize (mul (min_of balance amount) (literal 99 2)))

abbrev pub is_short : Option Decimal → Decimal → Bool
is_short none amount = false
is_short (some balance) amount = positive balance && ltb_ℤ balance amount

abbrev pub balance_of : Option Decimal → Decimal
balance_of none = whole 0
balance_of (some b) = b

-- The amount after the balance clamp; `none` is the deliberate skip below the venue's minimum.
unfoldable pub balance_clamp : Decimal → RouteCandidate → Decimal → Option Decimal
unfolding clamped_to_balance
balance_clamp max_pct c amount =
    if is_short c.quote_balance amount
    then (let amount' = clamped_to_balance max_pct (balance_of c.quote_balance) amount in
        if positive (floor_in_quote c) && ltb_ℤ amount' (floor_in_quote c)
        then none
        else some amount')
    else some amount

abbrev convert_by : Option Decimal → Bool → Decimal → Option Decimal
convert_by none same amount = if same then some amount else none
convert_by (some rate) same amount =
    if positive rate then some (mul amount rate) else if same then some amount else none

-- The budget in the route's input currency; `none` is the refusal of a route with no rate.
unfoldable pub input_amount : String → TradeRoute → Decimal → Option Decimal
input_amount quote r amount =
    convert_by r.quote_to_input_rate (str_eq (route_input_ccy r) quote) amount

-- The AED spend is stamped on the first order only.
unfoldable pub stamp : Decimal → List Order → List Order
stamp amount [] = []
stamp amount (o ∷ os) = record o { amount_quote_aed = some amount } ∷ os
