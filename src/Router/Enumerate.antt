-- ===== src/Router/Enumerate.antt =====
-- `SmartRouter._enumerate_routes` and `_enumerate_cross_exchange`, in the order of their loops.
use bitcoiners_dca.Prelude.{
  String, Bool, true, false, ◌||◌, Option, none, some, List, [], ◌∷◌, ◌++◌, if◌then◌else◌, ◌>>=◌,
  str_eq,
}
use bitcoiners_dca.Prelude.Int.{ltb_ℤ, leb_ℤ}
use bitcoiners_dca.Prelude.Sort.{sort}
use bitcoiners_dca.Decimal.{Decimal, whole, sub, mul, quotient, max_of}
use bitcoiners_dca.Models.{Pair, Ticker, buy, positive, or_else}
use bitcoiners_dca.Routing.{TradeHop, TradeRoute, make_route}
use bitcoiners_dca.Router.{
  RouteCandidate, ExchangeMarketData, SmartRouter, get_or, leb_price, taker_for, score_route,
}
use bitcoiners_dca.Router.Market.{pair_of, is_end}

-- A loop that adds candidates to a list and may raise.
abbrev pub collect {ℓ} :
    {A : Type ℓ} → (A → Option (List RouteCandidate)) → List A → Option (List RouteCandidate)
collect f [] = some []
collect f (a ∷ rest) = f a >>= λ cs. collect f rest >>= λ ds. some (cs ++ ds)

abbrev pub both :
    Option (List RouteCandidate) → Option (List RouteCandidate) → Option (List RouteCandidate)
both m n = m >>= λ cs. n >>= λ ds. some (cs ++ ds)

-- A buy on an exchange at the ask of its ticker.
abbrev pub buy_hop : ExchangeMarketData → Pair → Ticker → TradeHop
buy_hop md p t = record {
  exchange = md.name;
  pair = p;
  side = buy;
  price = t.ask;
  taker_pct = taker_for md p;
}

-- AED per unit of the intermediate, by a ticker with a positive ask.
abbrev pub rate_of : Option Ticker → Option Decimal
rate_of none = none
rate_of (some t) = if positive t.ask then some t.ask else none

module _ (router : SmartRouter) (mds : List ExchangeMarketData) (target quote : String)
    (sample : Decimal) where
  abbrev pub scored : Option TradeRoute → Decimal → Option (List RouteCandidate)
  scored route spread = route >>= λ r. score_route r sample spread mds >>= λ c. some (c ∷ [])

  unfoldable pub direct : ExchangeMarketData → Option (List RouteCandidate)
  direct md = elim (md.tickers (pair_of target quote)) [
    | none ↦ some []
    | some t ↦
        scored
          (make_route (buy_hop md (pair_of target quote) t ∷ []) (md.balances quote) false (whole 0)
            none)
          t.spread_pct
  ]

  unfoldable pub two_hop : ExchangeMarketData → String → Option (List RouteCandidate)
  two_hop md i = elim (md.tickers (pair_of i quote)) [
    | none ↦ some []
    | some t1 ↦ elim (md.tickers (pair_of target i)) [
      | none ↦ some []
      | some t2 ↦
          scored
            (make_route (buy_hop md (pair_of i quote) t1 ∷ buy_hop md (pair_of target i) t2 ∷ [])
              (md.balances quote) false (whole 0) none)
            (max_of t1.spread_pct t2.spread_pct)
    ]
  ]

  -- The nudge towards a stablecoin that is already held.
  abbrev pub preferring : RouteCandidate → RouteCandidate
  preferring c =
      if router.prefer_intermediate_balance
      then record c {
        score_multiplier =
            sub (whole 1) (quotient router.prefer_intermediate_boost_pct (whole 100));
      }
      else c

  abbrev pub funded_by :
      ExchangeMarketData → String → Decimal → Ticker → Option Decimal → Option (List RouteCandidate)
  funded_by md i balance t none = some []
  funded_by md i balance t (some aed_per_inter) =
      make_route (buy_hop md (pair_of target i) t ∷ []) (some (mul balance aed_per_inter)) false
        (whole 0) (some (quotient (whole 1) aed_per_inter))
      >>= λ r. score_route r sample t.spread_pct mds >>= λ c. some (preferring c ∷ [])

  -- A route that is paid from a held intermediate.
  unfoldable pub intermediate_direct : ExchangeMarketData → String → Option (List RouteCandidate)
  intermediate_direct md i =
      let balance = get_or (md.balances i) (whole 0) in
      elim (md.tickers (pair_of target i)) [
        | none ↦ some []
        | some t ↦
            if leb_ℤ router.prefer_intermediate_min balance
            then funded_by md i balance t (rate_of (md.tickers (pair_of i quote)))
            else some []
      ]

  unfoldable pub three_hop : ExchangeMarketData → String → String → Option (List RouteCandidate)
  three_hop md i j =
      if str_eq j i || is_end target quote j then some [] else elim (md.tickers (pair_of i quote)) [
        | none ↦ some []
        | some t1 ↦ elim (md.tickers (pair_of j i)) [
          | none ↦ some []
          | some t2 ↦ elim (md.tickers (pair_of target j)) [
            | none ↦ some []
            | some t3 ↦
                scored
                  (make_route
                    (buy_hop md (pair_of i quote) t1
                      ∷ buy_hop md (pair_of j i) t2
                      ∷ buy_hop md (pair_of target j) t3
                      ∷ [])
                    (md.balances quote) false (whole 0) none)
                  (max_of (max_of t1.spread_pct t2.spread_pct) t3.spread_pct)
          ]
        ]
      ]

  -- The body of the loop over the intermediates: the two-hop route, then the funded one.
  unfoldable pub through_one : ExchangeMarketData → String → Option (List RouteCandidate)
  unfolding two_hop intermediate_direct
  through_one md i =
      if is_end target quote i then some [] else both (two_hop md i) (intermediate_direct md i)

  unfoldable pub through_two : ExchangeMarketData → String → Option (List RouteCandidate)
  unfolding three_hop
  through_two md i =
      if is_end target quote i then some [] else collect (three_hop md i) router.intermediates

  unfoldable pub on_exchange : ExchangeMarketData → Option (List RouteCandidate)
  unfolding direct through_one through_two
  on_exchange md = both (direct md) (
      if router.enable_two_hop
      then both (collect (through_one md) router.intermediates)
          (collect (through_two md) router.intermediates)
      else some [])

  -- One pair of exchanges and one intermediate of `_enumerate_cross_exchange`.
  unfoldable pub bridge :
      ExchangeMarketData → String → ExchangeMarketData → Option (List RouteCandidate)
  bridge src i dst =
      if str_eq dst.name src.name then some [] else elim (src.tickers (pair_of i quote)) [
        | none ↦ some []
        | some t1 ↦ elim (dst.tickers (pair_of target i)) [
          | none ↦ some []
          | some t2 ↦
              scored
                (make_route
                  (buy_hop src (pair_of i quote) t1 ∷ buy_hop dst (pair_of target i) t2 ∷ []) none
                  true (mul (get_or (router.cross_exchange_withdrawal_costs i) (whole 0)) t1.ask)
                  none)
                (max_of t1.spread_pct t2.spread_pct)
        ]
      ]

  abbrev by_effective_price : RouteCandidate → RouteCandidate → Bool
  by_effective_price c d = leb_price c.effective_price d.effective_price

  unfoldable pub enumerate_cross_exchange : Option (List RouteCandidate)
  unfolding bridge sort
  enumerate_cross_exchange =
      if ltb_ℤ sample router.cross_exchange_min_size_aed
      then some []
      else (collect (λ src. collect (λ i. collect (bridge src i) mds) router.intermediates) mds
          >>= λ out. some (sort by_effective_price out))

-- `required_amount if required_amount else Decimal(1000)`
abbrev pub sample_amount : Option Decimal → Decimal
sample_amount required = or_else required (whole 1000)

unfoldable pub enumerate_routes :
    SmartRouter
    → List ExchangeMarketData
    → String
    → String
    → Option Decimal
    → Option (List RouteCandidate × List RouteCandidate)
unfolding on_exchange enumerate_cross_exchange
enumerate_routes router mds target quote required =
    let sample = sample_amount required in
    collect (on_exchange router mds target quote sample) mds >>= λ executable.
    (if router.enable_cross_exchange_alerts
      then enumerate_cross_exchange router mds target quote sample
      else some [])
    >>= λ cross. some (executable, cross)
