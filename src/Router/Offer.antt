-- ===== src/Router/Offer.antt =====
-- What `pick` answers, in terms of the routes that it enumerated.
use bitcoiners_dca.Prelude.{
  ◌≡◌, ◌≢◌, refl, sym, Option, some, List, [], ◌∷◌, arith, inl, inr, All, Option-cases,
}
use bitcoiners_dca.Prelude.Int.{pos, ◌<ℤ◌}
use mathlib.Core.Path.{subst}
use bitcoiners_dca.Decimal.{Decimal}
use bitcoiners_dca.Models.{Pair}
use bitcoiners_dca.Router.{
  ExchangeMarketData, RouteCandidate, ExcludedRoute, RoutingDecision, SmartRouter,
}
use bitcoiners_dca.Router.Market.{Feed, gather_market_data}
use bitcoiners_dca.Router.Enumerate.{enumerate_routes}
use bitcoiners_dca.Router.Filters.{minimum_filter, apply_filters, floor_in_quote}
use bitcoiners_dca.Router.Ranking.{apply_filters-eq_some, apply_filters-keeps}
use bitcoiners_dca.Router.Choice.{apply_filters-empty}
use bitcoiners_dca.Router.Routes.{IsExecutable}
use bitcoiners_dca.Router.Routes.Enumerated.{enumerate_routes-IsExecutable}
use bitcoiners_dca.Router.Pick.{
  PickResult, picked, below_minimum, no_route, arithmetic, pick, decide_on,
}

module _ (router : SmartRouter) (feeds : List Feed) (pair : Pair) (required : Option Decimal) where
  abbrev pub market_data : List ExchangeMarketData
  market_data = gather_market_data router pair.base pair.quote feeds

  abbrev pub enumerated : Option (List RouteCandidate × List RouteCandidate)
  enumerated =
      enumerate_routes router (gather_market_data router pair.base pair.quote feeds) pair.base
        pair.quote required

  -- What the filters made of the routes that were enumerated.
  abbrev Looked :
      PickResult
      → List RouteCandidate
      → List RouteCandidate
      → List RouteCandidate
      → List ExcludedRoute
      → Type 0
  Looked r executable cross usable excluded =
      (enumerated ≡ some (executable, cross))
      × (apply_filters router executable required ≡ some (usable, excluded))
      × (decide_on usable cross excluded ≡ r)

  pick-Looked :
      (r : PickResult)
      → pick router feeds pair required ≡ r
      → r ≢ arithmetic
      → (executable : List RouteCandidate) × (cross : List RouteCandidate) × (usable : List
          RouteCandidate)
        × (excluded : List ExcludedRoute) × Looked r executable cross usable excluded
  unfolding pick
  pick-Looked r e n = elim (Option-cases enumerated) [
    | inl raises ↦ absurd (n (sym (rw (raises, pick) at e)))
    | inr ((executable, cross), ec) ↦
        elim (Option-cases (apply_filters router executable required)) [
          | inl raises ↦ absurd (n (sym (rw (ec, raises, pick) at e)))
          | inr ((usable, excluded), eu) ↦
              (executable, cross, usable, excluded, (ec, eu, rw (ec, eu, pick) at e))
        ]
  ]

  decide_on-picked :
      (usable cross : List RouteCandidate) (excluded : List ExcludedRoute) (d : RoutingDecision)
      → decide_on usable cross excluded ≡ picked d
      → usable ≡ d.chosen ∷ d.alternatives
  decide_on-picked [] cross [] d e = absurd (ground arith)
  decide_on-picked [] cross (x ∷ xs) d e = absurd (ground arith)
  decide_on-picked (c ∷ cs) cross excluded d e = ground arith

  -- Whatever the feeds answer, the route that is picked and each alternative to it buys on one
  -- exchange only, ends in the pair's base, and spends the quote currency, or carries 1 / ask of
  -- the ticker that its exchange gave for its own input currency against the quote currency.
  pub pick-IsExecutable :
      (d : RoutingDecision)
      → pick router feeds pair required ≡ picked d
      → All (λ c. IsExecutable market_data pair.base pair.quote c.route) (d.chosen ∷ d.alternatives)
  pick-IsExecutable d e =
      let (executable, cross, usable, excluded, (ec, eu, ed)) =
        pick-Looked _ e (λ h. absurd (ground arith)) in
      subst (All (λ c. IsExecutable market_data pair.base pair.quote c.route))
        (decide_on-picked usable cross excluded d ed)
        (apply_filters-keeps router _ required executable usable excluded (λ c s h. h)
          (enumerate_routes-IsExecutable router _ pair.base pair.quote required executable cross ec)
          eu)

module _ (router : SmartRouter) (feeds : List Feed) (pair : Pair) (amount : Decimal) where
  abbrev pub TooDear : RouteCandidate → Type 0
  TooDear c = (pos 0 <ℤ floor_in_quote c) × (amount <ℤ floor_in_quote c)

  decide_on-below_minimum :
      (usable cross : List RouteCandidate) (excluded xs : List ExcludedRoute)
      → decide_on usable cross excluded ≡ below_minimum xs
      → usable ≡ []
  decide_on-below_minimum [] cross excluded xs e = refl
  decide_on-below_minimum (c ∷ cs) cross excluded xs e = absurd (ground arith)

  -- The exclusions that a refusal names come of routes that were found.
  found_some :
      (executable usable cross : List RouteCandidate) (excluded xs : List ExcludedRoute)
      → apply_filters router executable (some amount) ≡ some (usable, excluded)
      → decide_on usable cross excluded ≡ below_minimum xs
      → executable ≢ []
  unfolding minimum_filter
  found_some [] usable cross excluded xs e d =
      let (scored, es, eu, ee) = apply_filters-eq_some router (some amount) [] usable excluded e in
      absurd (
        let d' : no_route ≡ below_minimum xs =
          rw (decide_on-below_minimum usable cross excluded xs d, ee) at d in
        cc)
  found_some (c ∷ cs) usable cross excluded xs e d = λ h. cc

  -- The refusal for size is made only where routes were found, and each of them has a partner
  -- minimum above the amount.
  pub pick-below_minimum :
      (xs : List ExcludedRoute)
      → pick router feeds pair (some amount) ≡ below_minimum xs
      → (executable : List RouteCandidate) × (cross : List RouteCandidate) × (enumerated router
            feeds pair
            (some amount)
          ≡ some (executable, cross))
        × (executable ≢ [])
        × All TooDear executable
  pick-below_minimum xs e =
      let (executable, cross, usable, excluded, (ec, eu, ed)) =
        pick-Looked router feeds pair (some amount) _ e (λ h. absurd (ground arith)) in
      (
        executable,
        cross,
        ec,
        found_some executable usable cross excluded xs eu ed,
        apply_filters-empty router amount executable usable excluded eu
            (decide_on-below_minimum usable cross excluded xs ed),
      )
