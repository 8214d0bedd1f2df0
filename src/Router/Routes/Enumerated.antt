-- ===== src/Router/Routes/Enumerated.antt =====
-- All routes of `enumerate_routes` of src/bitcoiners_dca/core/router.py that may be executed.
use mathlib.Core.Path.{subst}
use bitcoiners_dca.Prelude.{
  String, ◌≡◌, inl, inr, Option, none, some, List, arith, All, Option-cases, ◌>>=◌,
}
use bitcoiners_dca.Decimal.{Decimal}
use bitcoiners_dca.Router.{RouteCandidate, ExchangeMarketData, SmartRouter}
use bitcoiners_dca.Router.Enumerate.{collect, on_exchange, enumerate_routes, sample_amount}
use bitcoiners_dca.Router.Routes.{IsExecutable, collect-All}
use bitcoiners_dca.Router.Routes.Shapes.{on_exchange-All}

abbrev with_alerts :
    List RouteCandidate → List RouteCandidate → Option (List RouteCandidate × List RouteCandidate)
with_alerts cs found = some (cs, found)

-- The candidates for execution of an enumeration, whatever the cross-exchange routes are.
enumerated :
    (cs executable cross : List RouteCandidate) (alerts : Option (List RouteCandidate))
    → (alerts >>= with_alerts cs) ≡ some (executable, cross)
    → cs ≡ executable
enumerated cs executable cross none e = absurd (ground arith)
enumerated cs executable cross (some found) e = ground arith

-- Every candidate for execution buys on one exchange only, ends in the target, and spends the quote
-- currency or carries the rate at which its own input currency is bought on its exchange.
pub enumerate_routes-IsExecutable :
    (router : SmartRouter) (mds : List ExchangeMarketData) (target quote : String)
    (required : Option Decimal) (executable cross : List RouteCandidate)
    → enumerate_routes router mds target quote required ≡ some (executable, cross)
    → All (λ c. IsExecutable mds target quote c.route) executable
unfolding enumerate_routes
enumerate_routes-IsExecutable router mds target quote required executable cross e =
    elim (Option-cases
      (collect (on_exchange router mds target quote (sample_amount required)) mds)) [
        | inl raises ↦ absurd (ground arith)
        | inr (cs, ec) ↦
            subst (All (λ c. IsExecutable mds target quote c.route))
              (enumerated cs executable cross _ (rw (ec, enumerate_routes) at e))
              (collect-All _ _ mds cs
                (on_exchange-All router mds target quote (sample_amount required)) ec)
      ]
