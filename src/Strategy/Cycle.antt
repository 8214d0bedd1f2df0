-- ===== src/Strategy/Cycle.antt =====
-- `DCAStrategy.execute`: one cycle, from the sweep of stale orders to the balance snapshot. The
-- local hour, the market context and the on-chain signals are parameters.
pub mod Ceiling
use bitcoiners_dca.Prelude.{
  ℕ, String, Bool, true, false, Option, none, some, List, [], ◌∷◌, if◌then◌else◌,
}
use bitcoiners_dca.Decimal.{Decimal}
use bitcoiners_dca.Models.{Pair, Order, Balance}
use bitcoiners_dca.Router.{RouteCandidate, RoutingDecision, SmartRouter}
use bitcoiners_dca.Router.Market.{Feed}
use bitcoiners_dca.Router.Pick.{PickResult, picked, pick}
use bitcoiners_dca.Overlays.{Overlay, OverlayContext}
use bitcoiners_dca.Overlays.Chain.{run_overlays}
use bitcoiners_dca.Strategy.{
  insufficient_balance, exchange_error, not_implemented, other, Result, ok, raise, Venues,
  StrategyConfig,
}
use bitcoiners_dca.Strategy.Route.{Orphan, RouteTrace, execute_route}
use bitcoiners_dca.Strategy.Balances.{BalanceSnapshot, aggregate_balances}
use bitcoiners_dca.Strategy.Sizing.{
  sweep_pairs, asks, least, risk_clamp, clamped_to_balance, balance_of, balance_clamp, input_amount,
  stamp,
}

pub data CycleError : Type 0 where
  sweep_failed routing_failed no_conversion_rate route_failed : CycleError

pub record ExecutionResult : Type 0 where
  pub intended_amount_aed : Decimal
  pub routing_decision : Option RoutingDecision
  pub orders : List Order
  pub errors : List CycleError
  pub deliberate_skip : Bool
  pub orphan : Option Orphan
  pub balances : Option BalanceSnapshot

-- What the caller supplies beside the risk cap.
pub record CycleInput : Type 0 where
  pub local_hour : ℕ
  pub price_7d_ago_aed : Option Decimal
  pub price_ath_aed : Option Decimal
  pub realized_vol_30d_pct : Option Decimal
  pub hourly_spread_history : List (ℕ × Decimal)
  pub onchain_signals : List (String × Decimal)

module _ (v : Venues) (upper : String → String) (cfg : StrategyConfig) (router : SmartRouter)
    (overlays : List Overlay) (names : List String) where
  open v use {World}

  -- One pair on one exchange; `true` goes on.
  abbrev swept : Result ℕ × World → Bool × World
  swept (ok n, w) = (true, w)
  swept (raise insufficient_balance, w) = (false, w)
  swept (raise exchange_error, w) = (false, w)
  swept (raise not_implemented, w) = (true, w)
  swept (raise other, w) = (true, w)

  abbrev sweep_exchange : String → List Pair → World → Bool × World
  sweep_exchange name [] w = (true, w)
  sweep_exchange name (p ∷ ps) w =
      let (go_on, w') = swept (v.cancel_all_open_orders name p w) in
      let rest = sweep_exchange name ps w' in if go_on then rest else (false, w')

  unfoldable pub sweep : List String → List Pair → World → Bool × World
  sweep [] ps w = (true, w)
  sweep (name ∷ rest) ps w =
      let (go_on, w') = sweep_exchange name ps w in
      let others = sweep rest ps w' in if go_on then others else (false, w')

  -- One answer of `_snapshot_balances`: an exchange whose call fails is named, not counted.
  abbrev noted :
      String
      → Result (List Balance)
      → List (String × List Balance) × List String
      → List (String × List Balance) × List String
  noted name (ok rows) (found, failed) = ((name, rows) ∷ found, failed)
  noted name (raise e) (found, failed) = (found, name ∷ failed)

  unfoldable pub collect_balances :
      List String → World → (List (String × List Balance) × List String) × World
  collect_balances [] w = (([], []), w)
  collect_balances (name ∷ rest) w =
      let (answer, w') = v.get_balances name w in
      let (later, w'') = collect_balances rest w' in (noted name answer later, w'')

  unfoldable pub snapshot_balances : World → BalanceSnapshot × World
  unfolding collect_balances aggregate_balances
  snapshot_balances w =
      let ((found, failed), w') = collect_balances names w in
      (record (aggregate_balances upper found) { errors = failed }, w')

  abbrev started : ExecutionResult
  started = record {
    intended_amount_aed = cfg.base_amount_aed;
    routing_decision = none;
    orders = [];
    errors = [];
    deliberate_skip = false;
    orphan = none;
    balances = none;
  }

  -- The end of a cycle, by how the route ended. Only an ExchangeError is caught here.
  abbrev conclude :
      Decimal
      → ExecutionResult
      → Result (List Order) × RouteTrace × World
      → Result ExecutionResult × World
  conclude amount r (ok orders, t, w) =
      let (snapshot, w') = snapshot_balances w in
      (
        ok (record r {
          orders = stamp amount orders;
          deliberate_skip = t.deliberate_skip;
          orphan = t.orphan;
          balances = some snapshot;
        }),
        w',
      )
  conclude amount r (raise not_implemented, t, w) = (raise not_implemented, w)
  conclude amount r (raise other, t, w) = (raise other, w)
  conclude amount r (raise e, t, w) =
      (ok (record r { errors = route_failed ∷ []; orphan = t.orphan }), w)

  abbrev run_route :
      ExecutionResult
      → RouteCandidate
      → Decimal
      → Option Decimal
      → World
      → Result ExecutionResult × World
  run_route r c amount none w = (ok (record r { errors = no_conversion_rate ∷ [] }), w)
  run_route r c amount (some exec_amount) w = conclude amount r (
      execute_route v cfg names c.route exec_amount
        (record { deliberate_skip = false; orphan = none }) w)

  -- From the balance clamp's verdict on.
  abbrev spend_clamped :
      RoutingDecision → Decimal → Option Decimal → World → Result ExecutionResult × World
  spend_clamped d amount none w = (
    ok (record started {
      intended_amount_aed =
          clamped_to_balance cfg.max_pct_of_balance (balance_of d.chosen.quote_balance) amount;
      routing_decision = some d;
      deliberate_skip = true;
    }),
    w,
  )
  spend_clamped d amount (some amount') w =
      run_route (record started { intended_amount_aed = amount'; routing_decision = some d })
        d.chosen amount' (input_amount cfg.pair.quote d.chosen.route amount') w

  -- From the chosen route on.
  unfoldable pub spend_on : RoutingDecision → Decimal → World → Result ExecutionResult × World
  unfolding balance_clamp input_amount execute_route stamp snapshot_balances
  spend_on d amount w =
      spend_clamped d amount (balance_clamp cfg.max_pct_of_balance d.chosen amount) w

  abbrev route_with : PickResult → Decimal → World → Result ExecutionResult × World
  route_with (picked d) amount w = spend_on d amount w
  route_with _ amount w =
      (ok (record started { intended_amount_aed = amount; errors = routing_failed ∷ [] }), w)

  abbrev feeds : List String → World → List Feed
  feeds [] w = []
  feeds (name ∷ rest) w = v.feed name w ∷ feeds rest w

  abbrev context_of : CycleInput → World → OverlayContext
  context_of input w = record {
    local_hour = input.local_hour;
    base_amount_aed = cfg.base_amount_aed;
    current_price_aed = least (asks cfg.pair (feeds names w));
    price_7d_ago_aed = input.price_7d_ago_aed;
    price_ath_aed = input.price_ath_aed;
    realized_vol_30d_pct = input.realized_vol_30d_pct;
    hourly_spread_history = input.hourly_spread_history;
    onchain_signals = input.onchain_signals;
  }

  -- From the overlays' verdict on.
  unfoldable pub after_overlays :
      Option (Option Decimal) → Option Decimal → World → Result ExecutionResult × World
  unfolding spend_on risk_clamp
  after_overlays none cap w = (raise other, w)
  after_overlays (some none) cap w = (ok (record started { deliberate_skip = true }), w)
  after_overlays (some (some amount)) cap w =
      let amount' = risk_clamp cap amount in
      route_with (pick router (feeds names w) cfg.pair (some amount')) amount' w

  unfoldable pub execute : CycleInput → Option Decimal → World → Result ExecutionResult × World
  unfolding sweep after_overlays
  execute input cap w =
      let (clear, w') = sweep names (sweep_pairs cfg.pair router.intermediates) w in
      if clear
      then after_overlays (run_overlays overlays (context_of input w') cfg.base_amount_aed) cap w'
      else (ok (record started { errors = sweep_failed ∷ [] }), w')
