-- ===== src/Router/Routes.antt =====
-- The shape of every route that may be executed: what it means, and what the lists of the
-- enumeration keep. Router/Routes/Shapes has the single shapes, Router/Routes/Enumerated the whole.
pub mod Shapes
pub mod Enumerated
use mathlib.Core.Path.{subst}
use mathlib.Core.Option.{some-injective}
use bitcoiners_dca.Prelude.{
  String, ◌≡◌, ◌⊎◌, inl, inr, refl, sym, ◌∙◌, false, ◌||◌, Option, none, some, List, [], ◌∷◌, ◌++◌,
  arith, All, Any, All-append, Bool-cases, Option-cases, if◌then◌else◌, ◌>>=◌, str_eq,
}
use bitcoiners_dca.Prelude.Int.{pos, ◌<ℤ◌, leb_ℤ}
use bitcoiners_dca.Decimal.{Decimal, whole, quotient, mul, max_of}
use bitcoiners_dca.Router.Market.{pair_of}
use bitcoiners_dca.Models.{Ticker, Ticker, buy}
use bitcoiners_dca.Routing.{
  TradeHop, TradeRoute, make_route, chains, route_input_ccy, route_output_ccy, hops,
}
use bitcoiners_dca.Router.{RouteCandidate, ExchangeMarketData, SmartRouter, score_route, get_or}
use bitcoiners_dca.Router.Market.{pair_of, is_end}
use bitcoiners_dca.Router.Enumerate.{
  collect, both, direct, two_hop, intermediate_direct, funded_by, rate_of, preferring, three_hop,
  through_one, through_two, on_exchange, enumerate_routes, buy_hop, sample_amount,
}

-- Only buys, all on one exchange, ending in the target.
abbrev pub BuysOn : String → TradeHop → Type 0
BuysOn name h = (h.exchange ≡ name) × (h.side ≡ buy)

-- The rate of the route is 1 / ask, where the ask is positive and is that of the ticker of the
-- route's own input currency against the quote currency, on the exchange of the route.
abbrev pub RateFrom : String → TradeRoute → ExchangeMarketData → Type 0
RateFrom quote r md =
    (md.name ≡ r.first.exchange)
    × (t : Ticker) × (md.tickers (pair_of (route_input_ccy r) quote) ≡ some t)
    × (pos 0 <ℤ t.ask)
    × (r.quote_to_input_rate ≡ some (quotient (whole 1) t.ask))

-- The route spends the quote currency, with no rate, or has its rate from the market data.
abbrev pub HasRate : List ExchangeMarketData → String → TradeRoute → Type 0
HasRate mds quote r =
    ((route_input_ccy r ≡ quote) × (r.quote_to_input_rate ≡ none)) ⊎ Any (RateFrom quote r) mds

-- Not across exchanges: only buys, on one exchange, that end in the target, with a known rate.
abbrev pub IsExecutable : List ExchangeMarketData → String → String → TradeRoute → Type 0
IsExecutable mds target quote r =
    (r.cross_exchange ≡ false)
    × All (BuysOn r.first.exchange) (hops r)
    × (route_output_ccy r ≡ target)
    × HasRate mds quote r

module _ (P : RouteCandidate → Type 0) where
  pub collect-All :
      {A : Type 0} (f : A → Option (List RouteCandidate)) (as' : List A) (cs : List RouteCandidate)
      → ((a : A) → Any (λ b. b ≡ a) as' → (ds : List RouteCandidate) → f a ≡ some ds → All P ds)
      → collect f as' ≡ some cs
      → All P cs
  collect-All f [] cs h e = subst (All P) (some-injective _ _ e) tt
  collect-All f (a ∷ rest) cs h e = elim (Option-cases (f a)) [
    | inl raises ↦ absurd (ground arith)
    | inr (ds, ed) ↦ elim (Option-cases (collect f rest)) [
      | inl raises ↦ absurd (ground arith)
      | inr (es, ee) ↦
          let same : ds ++ es ≡ cs = ground arith in
          subst (All P) same (
            All-append P ds es (h a (inl refl) ds ed)
              (collect-All f rest es (λ b m. h b (inr m)) ee))
    ]
  ]

  pub both-All :
      (m n : Option (List RouteCandidate)) (cs : List RouteCandidate)
      → ((ds : List RouteCandidate) → m ≡ some ds → All P ds)
      → ((ds : List RouteCandidate) → n ≡ some ds → All P ds)
      → both m n ≡ some cs
      → All P cs
  both-All none n cs h k e = absurd (ground arith)
  both-All (some ds) none cs h k e = absurd (ground arith)
  both-All (some ds) (some es) cs h k e =
      subst (All P) (some-injective _ _ e) (All-append P ds es (h ds refl) (k es refl))

pub score_route-route :
    (r : TradeRoute) (sample spread : Decimal) (mds : List ExchangeMarketData) (c : RouteCandidate)
    → score_route r sample spread mds ≡ some c
    → c.route ≡ r
unfolding score_route
score_route-route r sample spread mds c e = ground arith

-- The route that `make_route` builds, if it builds one.
abbrev pub built : TradeHop → List TradeHop → Option Decimal → Option Decimal → TradeRoute
built h ks balance rate = record {
  first = h;
  rest = ks;
  quote_balance = balance;
  cross_exchange = false;
  fixed_costs = whole 0;
  quote_to_input_rate = rate;
}
