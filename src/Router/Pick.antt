-- ===== src/Router/Pick.antt =====
-- `SmartRouter.pick`: gather, enumerate, filter, and take the first.
use bitcoiners_dca.Prelude.{Option, none, some, List, [], ◌∷◌}
use bitcoiners_dca.Decimal.{Decimal}
use bitcoiners_dca.Models.{Pair}
use bitcoiners_dca.Router.{RouteCandidate, ExcludedRoute, RoutingDecision, SmartRouter}
use bitcoiners_dca.Router.Market.{Feed, gather_market_data}
use bitcoiners_dca.Router.Enumerate.{enumerate_routes}
use bitcoiners_dca.Router.Filters.{apply_filters}

-- `arithmetic` is an exception of the decimal arithmetic, `below_minimum` and `no_route` are the
-- two RuntimeErrors.
pub data PickResult : Type 0 where
  picked : RoutingDecision → PickResult
  below_minimum : List ExcludedRoute → PickResult
  no_route arithmetic : PickResult

abbrev pub decide_on : List RouteCandidate → List RouteCandidate → List ExcludedRoute → PickResult
decide_on [] cross [] = no_route
decide_on [] cross (e ∷ es) = below_minimum (e ∷ es)
decide_on (c ∷ cs) cross excluded =
    picked
      (record { chosen = c; alternatives = cs; cross_exchange_alerts = cross; excluded = excluded })

unfoldable pub pick : SmartRouter → List Feed → Pair → Option Decimal → PickResult
unfolding gather_market_data enumerate_routes apply_filters
pick router exchanges pair required =
    let mds = gather_market_data router pair.base pair.quote exchanges in
    elim (enumerate_routes router mds pair.base pair.quote required) [
      | none ↦ arithmetic
      | some (executable, cross) ↦ elim (apply_filters router executable required) [
        | none ↦ arithmetic
        | some (usable, excluded) ↦ decide_on usable cross excluded
      ]
    ]
