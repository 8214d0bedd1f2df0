-- ===== src/Tests/Routes.antt =====
-- Runs of the router over one exchange.
use bitcoiners_dca.Prelude.{◌≡◌, ◌≢◌, refl, true, false, Option, none, some, List, [], ◌∷◌, All}
use mathlib.Core.List.{flat_map}
use bitcoiners_dca.Decimal.{literal, Decimal, whole, sub, div, mul, add}
use bitcoiners_dca.Models.{OrderMinimum, Pair}
use bitcoiners_dca.Routing.{infinite, make_route, effective_price, min_input_amount}
use bitcoiners_dca.Router.{
  RouteCandidate, ExcludedRoute, RoutingDecision, SmartRouter, score_route, taker_for,
}
use bitcoiners_dca.Router.Market.{Feed}
use bitcoiners_dca.Router.Filters.{apply_filters}
use bitcoiners_dca.Router.Pick.{PickResult, picked, below_minimum, pick}
use bitcoiners_dca.Routing.{TradeRoute}
use bitcoiners_dca.Router.Market.{pair_of}
use bitcoiners_dca.Router.Routes.{IsExecutable}
use bitcoiners_dca.Router.Choice.{Ranked, eligible, apply_filters-Ranked}
use bitcoiners_dca.Router.Offer.{
  pick-IsExecutable, pick-below_minimum, TooDear, enumerated, market_data,
}
use bitcoiners_dca.Tests.Venue.{okx_feed, btc_aed, hop_on}

abbrev pub plain_router : SmartRouter
plain_router = record {
  exclude_if_spread_pct_above = whole 2;
  preferred_exchange = none;
  preferred_bonus_pct = whole 0;
  enable_two_hop = true;
  intermediates = "USDT" ∷ [];
  enable_cross_exchange_alerts = false;
  cross_exchange_min_size_aed = whole 5000;
  cross_exchange_withdrawal_costs = λ c. none;
  prefer_intermediate_balance = false;
  prefer_intermediate_min = whole 0;
  prefer_intermediate_boost_pct = whole 0;
}

abbrev direct_router : SmartRouter
direct_router = record plain_router { enable_two_hop = false }

-- A venue that asks for at least 1,000 AED of each pair.
abbrev dear_minimum : Pair → OrderMinimum
dear_minimum p = record {
  exchange = "okx";
  pair = p;
  min_base = none;
  min_quote = some (whole 1000);
  quote_currency = "AED";
}

abbrev dear_feed : Feed
dear_feed = record okx_feed { get_order_minimum = λ p. some (dear_minimum p) }

abbrev no_decision : RoutingDecision
no_decision = record {
  chosen = record {
    route = record {
      first = hop_on btc_aed;
      rest = [];
      quote_balance = none;
      cross_exchange = false;
      fixed_costs = whole 0;
      quote_to_input_rate = none;
    };
    effective_price = infinite;
    score = infinite;
    max_spread_pct = whole 0;
    score_multiplier = whole 1;
    quote_balance = none;
    min_input_amount = whole 0;
    hop_minimums = [];
  };
  alternatives = [];
  cross_exchange_alerts = [];
  excluded = [];
}

abbrev decision_of : PickResult → RoutingDecision
decision_of (picked d) = d
decision_of _ = no_decision

abbrev refusals_of : PickResult → List ExcludedRoute
refusals_of (below_minimum xs) = xs
refusals_of _ = []

abbrev size : Option Decimal
size = some (whole 500)

abbrev decision : RoutingDecision
decision = decision_of (pick plain_router (okx_feed ∷ []) btc_aed size)

picks : pick plain_router (okx_feed ∷ []) btc_aed size ≡ picked decision
unfolding pick flat_map make_route score_route effective_price sub div mul add taker_for
    min_input_amount
picks = refl

pick-IsExecutable_example :
    All
      (λ c.
        IsExecutable (market_data plain_router (okx_feed ∷ []) btc_aed size) "BTC" "AED" c.route)
      (decision.chosen ∷ decision.alternatives)
pick-IsExecutable_example =
    pick-IsExecutable plain_router (okx_feed ∷ []) btc_aed size decision picks

abbrev refusals : List ExcludedRoute
refusals = refusals_of (pick direct_router (dear_feed ∷ []) btc_aed size)

refuses : pick direct_router (dear_feed ∷ []) btc_aed size ≡ below_minimum refusals
unfolding pick flat_map make_route score_route effective_price sub div mul add taker_for
    min_input_amount
refuses = refl

pick-below_minimum_example :
    (executable : List RouteCandidate) × (cross : List RouteCandidate) × (enumerated direct_router
        (dear_feed ∷ [])
        btc_aed
        size
      ≡ some (executable, cross))
    × (executable ≢ [])
    × All (TooDear direct_router (dear_feed ∷ []) btc_aed (whole 500)) executable
pick-below_minimum_example =
    pick-below_minimum direct_router (dear_feed ∷ []) btc_aed (whole 500) refusals refuses

abbrev candidates : List RouteCandidate
candidates = decision.chosen ∷ decision.alternatives

abbrev offered_of : Option (List RouteCandidate × List ExcludedRoute) → List RouteCandidate
offered_of none = []
offered_of (some (usable, excluded)) = usable

abbrev offered : List RouteCandidate
offered = offered_of (apply_filters plain_router candidates size)

offers : apply_filters plain_router candidates size ≡ some (offered, [])
unfolding apply_filters pick flat_map make_route score_route effective_price sub div mul add
    taker_for min_input_amount
offers = refl

apply_filters-Ranked_example :
    Ranked plain_router (whole 500) (eligible plain_router (whole 500) candidates) offered
apply_filters-Ranked_example =
    apply_filters-Ranked plain_router (whole 500) candidates offered [] offers

-- Two hops by USDT, of which the second asks for at least 10 USDT.
abbrev chained : TradeRoute
chained = record {
  first = record (hop_on (pair_of "USDT" "AED")) { price = literal 367 2 };
  rest = hop_on (pair_of "BTC" "USDT") ∷ [];
  quote_balance = none;
  cross_exchange = false;
  fixed_costs = whole 0;
  quote_to_input_rate = none;
}

abbrev usdt_minimums : List (Option OrderMinimum)
usdt_minimums =
    none
    ∷ some (record (dear_minimum (pair_of "BTC" "USDT")) {
      min_quote = some (whole 10);
      quote_currency = "USDT";
    })
    ∷ []

-- 10 * 3.67 * 1.005 * 1.01
abbrev chained_floor : Decimal
chained_floor = literal 37_252_335 6

chained_minimum : min_input_amount chained usdt_minimums ≡ some chained_floor
unfolding min_input_amount mul add
chained_minimum = refl
