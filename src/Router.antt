-- ===== src/Router.antt =====
-- src/bitcoiners_dca/core/router.py: the candidates, the router's settings, the market data of one
-- exchange, and the scoring of a route. Dictionaries are functions into `Option`. The texts `note`,
-- `label` and `reason` are left out. `none` is an exception.
pub mod Market
pub mod Enumerate
pub mod Filters
pub mod Routes
pub mod Ranking
pub mod Choice
pub mod Pick
pub mod Offer
use bitcoiners_dca.Prelude.{
  String, Bool, true, false, Option, none, some, List, [], ◌∷◌, map, if◌then◌else◌, ◌>>=◌, str_eq,
}
use bitcoiners_dca.Prelude.Int.{leb_ℤ}
use bitcoiners_dca.Decimal.{Decimal, whole, sub, mul, div, quotient}
use bitcoiners_dca.Models.{Pair, Ticker, OrderMinimum, positive}
use bitcoiners_dca.Routing.{
  TradeRoute, Price, finite, infinite, hops, effective_price, min_input_amount,
}

pub record RouteCandidate : Type 0 where
  pub route : TradeRoute
  pub effective_price : Price
  pub score : Price
  pub max_spread_pct : Decimal
  pub score_multiplier : Decimal
  pub quote_balance : Option Decimal
  pub min_input_amount : Decimal
  pub hop_minimums : List (Option OrderMinimum)

pub record ExcludedRoute : Type 0 where
  pub route : TradeRoute
  pub min_input_amount : Decimal
  pub hop_minimums : List (Option OrderMinimum)

pub record RoutingDecision : Type 0 where
  pub chosen : RouteCandidate
  pub alternatives : List RouteCandidate
  pub cross_exchange_alerts : List RouteCandidate
  pub excluded : List ExcludedRoute

pub record ExchangeMarketData : Type 0 where
  pub name : String
  pub tickers : Pair → Option Ticker
  pub taker_pct : Decimal
  pub balances : String → Option Decimal
  pub minimums : Pair → Option OrderMinimum
  pub taker_pct_by_pair : Pair → Option Decimal

pub record SmartRouter : Type 0 where
  pub exclude_if_spread_pct_above : Decimal
  pub preferred_exchange : Option String
  pub preferred_bonus_pct : Decimal
  pub enable_two_hop : Bool
  pub intermediates : List String
  pub enable_cross_exchange_alerts : Bool
  pub cross_exchange_min_size_aed : Decimal
  pub cross_exchange_withdrawal_costs : String → Option Decimal
  pub prefer_intermediate_balance : Bool
  pub prefer_intermediate_min : Decimal
  pub prefer_intermediate_boost_pct : Decimal

abbrev pub get_or {ℓ} : {A : Type ℓ} → Option A → A → A
get_or none d = d
get_or (some a) d = a

-- `_ExchangeMarketData.taker_for`
unfoldable pub taker_for : ExchangeMarketData → Pair → Decimal
taker_for md p = get_or (md.taker_pct_by_pair p) md.taker_pct

-- The order of prices: an infinite one is above every other.
abbrev pub leb_price : Price → Price → Bool
leb_price (finite a) (finite b) = leb_ℤ a b
leb_price (finite a) infinite = true
leb_price infinite (finite b) = false
leb_price infinite infinite = true

-- A price times a factor. Infinity times zero raises; minus infinity is left out, as an exception.
abbrev pub mul_price : Price → Decimal → Option Price
mul_price (finite a) d = some (finite (mul a d))
mul_price infinite d = if positive d then some infinite else none

-- `if rate and rate > 0: x / rate`
abbrev pub per_rate : Decimal → Option Decimal → Decimal
per_rate x none = x
per_rate x (some rate) = if positive rate then quotient x rate else x

abbrev price_per_rate : Price → Option Decimal → Price
price_per_rate (finite a) rate = finite (per_rate a rate)
price_per_rate infinite rate = infinite

-- `_effective_price_in_quote`
unfoldable pub effective_price_in_quote : TradeRoute → Decimal → Option Price
effective_price_in_quote r sample =
    effective_price r sample >>= λ eff. some (price_per_rate eff r.quote_to_input_rate)

-- `by_name.get`: of two exchanges with one name the later one counts.
abbrev by_name : List ExchangeMarketData → String → Option ExchangeMarketData
by_name [] name = none
by_name (md ∷ mds) name = elim (by_name mds name) [
  | some found ↦ some found
  | none ↦ if str_eq md.name name then some md else none
]

abbrev minimum_of : Option ExchangeMarketData → Pair → Option OrderMinimum
minimum_of none p = none
minimum_of (some md) p = md.minimums p

-- `SmartRouter._lookup_minimums`
unfoldable pub lookup_minimums : TradeRoute → List ExchangeMarketData → List (Option OrderMinimum)
lookup_minimums r mds = map (λ h. minimum_of (by_name mds h.exchange) h.pair) (hops r)

-- `SmartRouter._score`: an exception of `min_input_amount` counts as no floor.
unfoldable pub score_route :
    TradeRoute → Decimal → Decimal → List ExchangeMarketData → Option RouteCandidate
unfolding effective_price_in_quote lookup_minimums
score_route r sample max_spread mds = effective_price_in_quote r sample >>= λ eff. some (record {
  route = r;
  effective_price = eff;
  score = eff;
  max_spread_pct = max_spread;
  score_multiplier = whole 1;
  quote_balance = r.quote_balance;
  min_input_amount = get_or (min_input_amount r (lookup_minimums r mds)) (whole 0);
  hop_minimums = lookup_minimums r mds;
})

abbrev premium_over : Price → Price → Option Decimal
premium_over (finite chosen) (finite alt) =
    if positive chosen
    then (div (sub alt chosen) chosen >>= λ q. some (mul q (whole 100)))
    else some (whole 0)
premium_over (finite chosen) infinite = if positive chosen then none else some (whole 0)
premium_over infinite alt = none

-- `RoutingDecision.price_premium_vs_alt_pct`, for finite prices; `none` stands for the infinite
-- results and the exceptions of infinite ones.
unfoldable pub price_premium_vs_alt_pct : RoutingDecision → Option Decimal
price_premium_vs_alt_pct d = elim d.alternatives [
  | [] ↦ some (whole 0)
  | alt ∷ _ ↦ premium_over d.chosen.effective_price alt.effective_price
]
