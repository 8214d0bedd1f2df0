-- ===== src/Tests/Spending.antt =====
-- Runs of one hop, of a two-hop route and of a whole cycle on the paper venue.
use bitcoiners_dca.Prelude.{◌+◌, ◌≤◌, ◌≡◌, refl, false, none, some, List, [], ◌∷◌, arith}
use bitcoiners_dca.Prelude.Int.{pos_part}
use bitcoiners_dca.Decimal.{whole}
use bitcoiners_dca.Models.{Order, filled}
use bitcoiners_dca.Routing.{TradeRoute, hops}
use bitcoiners_dca.Router.Market.{pair_of}
use bitcoiners_dca.Strategy.{ok, taker, maker_fallback, execute_hop}
use bitcoiners_dca.Strategy.Exposure.{execute_hop-exposure}
use bitcoiners_dca.Strategy.Route.{RouteTrace, execute_route}
use bitcoiners_dca.Strategy.Route.Threading.{Threaded, execute_route-Threaded}
use bitcoiners_dca.Strategy.Cycle.{CycleInput, execute}
use bitcoiners_dca.Strategy.Cycle.Ceiling.{Accounted, execute-Accounted}
use bitcoiners_dca.Tests.Venue.{
  Books, paper, paper_promises, empty_books, settings, hop_on, btc_aed, order_for,
}
use bitcoiners_dca.Tests.Routes.{plain_router}

-- The resting order is cancelled, and a market order takes its place.
falls_back :
    (execute_hop paper (settings maker_fallback) (hop_on btc_aed) (whole 100) empty_books).1
    ≡ record { spent = pos_part (whole 100); resting = 0 }
unfolding execute_hop
falls_back = refl

execute_hop-exposure_example :
    paper_promises.exposure
      (execute_hop paper (settings maker_fallback) (hop_on btc_aed) (whole 100) empty_books).1
    ≤ paper_promises.exposure empty_books + pos_part (whole 100)
execute_hop-exposure_example =
    execute_hop-exposure paper paper_promises (settings maker_fallback) (hop_on btc_aed) (whole 100)
      empty_books

abbrev by_usdt : TradeRoute
by_usdt = record {
  first = hop_on (pair_of "USDT" "AED");
  rest = hop_on (pair_of "BTC" "USDT") ∷ [];
  quote_balance = none;
  cross_exchange = false;
  fixed_costs = whole 0;
  quote_to_input_rate = none;
}

abbrev fresh : RouteTrace
fresh = record { deliberate_skip = false; orphan = none }

abbrev two_orders : List Order
two_orders =
    order_for (pair_of "USDT" "AED") (whole 500) filled (some (whole 1))
    ∷ order_for (pair_of "BTC" "USDT") (whole 1) filled (some (whole 1))
    ∷ []

abbrev books_after : Books
books_after = record { spent = pos_part (whole 501); resting = 0 }

two_hops_run :
    execute_route paper (settings taker) ("okx" ∷ []) by_usdt (whole 500) fresh empty_books
    ≡ (ok two_orders, fresh, books_after)
unfolding execute_route execute_hop
two_hops_run = refl

execute_route-Threaded_example :
    Threaded paper
      (settings taker)
      ("okx" ∷ [])
      (hops by_usdt)
      (whole 500)
      empty_books
      two_orders
      books_after
execute_route-Threaded_example =
    execute_route-Threaded paper (settings taker) ("okx" ∷ []) by_usdt (whole 500) fresh empty_books
      two_orders fresh books_after two_hops_run refl

abbrev pub noon : CycleInput
noon = record {
  local_hour = 12;
  price_7d_ago_aed = none;
  price_ath_aed = none;
  realized_vol_30d_pct = none;
  hourly_spread_history = [];
  onchain_signals = [];
}

execute-Accounted_example :
    Accounted paper
      (λ s. s)
      (settings taker)
      plain_router
      []
      ("okx" ∷ [])
      (some (whole 200))
      (execute paper
        (λ s. s)
        (settings taker)
        plain_router
        []
        ("okx" ∷ [])
        noon
        (some (whole 200))
        empty_books)
execute-Accounted_example =
    execute-Accounted paper (λ s. s) (settings taker) plain_router [] ("okx" ∷ [])
      (some (whole 200)) noon empty_books (omega arith)
