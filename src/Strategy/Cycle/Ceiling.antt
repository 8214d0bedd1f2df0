-- ===== src/Strategy/Cycle/Ceiling.antt =====
-- What a cycle records of its spending.
use bitcoiners_dca.Prelude.{
  ◌≡◌, refl, String, Bool, true, false, Option, none, some, List, [], ◌∷◌, arith, inl, inr,
  Bool-cases, if◌then◌else◌, ◌⊎◌,
}
use mathlib.Core.Path.{subst}
use bitcoiners_dca.Prelude.Int.{pos, ◌≤ℤ◌, ltb_ℤ}
use bitcoiners_dca.Decimal.{Decimal, whole}
use bitcoiners_dca.Decimal.Rounding.{quantize-mul_le}
use bitcoiners_dca.Risk.Caps.{Keeps}
use bitcoiners_dca.Models.{Order, positive}
use bitcoiners_dca.Router.{RouteCandidate, RoutingDecision, SmartRouter}
use bitcoiners_dca.Router.Pick.{PickResult, picked, below_minimum, no_route, arithmetic, pick}
use bitcoiners_dca.Overlays.{Overlay}
use bitcoiners_dca.Overlays.Chain.{run_overlays}
use bitcoiners_dca.Strategy.{
  insufficient_balance, exchange_error, not_implemented, other, Result, ok, raise, Venues,
  StrategyConfig,
}
use bitcoiners_dca.Strategy.Route.{RouteTrace}
use bitcoiners_dca.Strategy.Sizing.{
  risk_clamp, clamped_to_balance, balance_clamp, is_short, stamp, balance_of, sweep_pairs,
}
use bitcoiners_dca.Strategy.Cycle.{
  sweep_failed, ExecutionResult, CycleInput, conclude, run_route, feeds, spend_clamped, spend_on,
  route_with, after_overlays, execute, sweep, context_of, started,
}

-- A ceiling of one or more, if any.
abbrev pub AtLeastOne : Option Decimal → Type 0
AtLeastOne none = Unit
AtLeastOne (some c) = whole 1 ≤ℤ c

risk_clamp-Keeps : (ceiling : Option Decimal) (a : Decimal) → Keeps ceiling (risk_clamp ceiling a)
unfolding risk_clamp
risk_clamp-Keeps none a = tt
risk_clamp-Keeps (some c) a = ground arith

clamped_to_balance-Keeps :
    (ceiling : Option Decimal) (pct balance a : Decimal)
    → AtLeastOne ceiling
    → Keeps ceiling a
    → positive balance ≡ true
    → ltb_ℤ balance a ≡ true
    → Keeps ceiling (clamped_to_balance pct balance a)
unfolding clamped_to_balance
clamped_to_balance-Keeps none pct balance a one h p l = tt
clamped_to_balance-Keeps (some (pos c)) pct (pos b) a one h p l =
    ground (arith, quantize-mul_le b c)
clamped_to_balance-Keeps (some c) pct balance a one h p l = absurd (ground arith)

balance_clamp-Keeps :
    (ceiling : Option Decimal) (pct : Decimal) (c : RouteCandidate) (a a' : Decimal)
    → AtLeastOne ceiling
    → Keeps ceiling a
    → balance_clamp pct c a ≡ some a'
    → Keeps ceiling a'
unfolding balance_clamp
balance_clamp-Keeps ceiling pct c a a' one h e = elim (Bool-cases (is_short c.quote_balance a)) [
  | inr enough ↦ subst (Keeps ceiling) (ground arith) h
  | inl short ↦
      let b = balance_of c.quote_balance in
      let p : positive b ≡ true = ground arith in
      let l : ltb_ℤ b a ≡ true = ground arith in
      subst (Keeps ceiling) (ground arith) (clamped_to_balance-Keeps ceiling pct b a one h p l)
]

-- The first order, if there is one, carries the amount, which respects the ceiling.
abbrev pub Stamped : Option Decimal → Decimal → List Order → Type 0
Stamped ceiling a [] = Unit
Stamped ceiling a (o ∷ os) = (o.amount_quote_aed ≡ some a) × Keeps ceiling a

-- A cycle with an error reports no order; else the first order carries the cycle's amount.
abbrev pub Accounts : Option Decimal → ExecutionResult → Type 0
Accounts ceiling r =
    ((r.errors ≡ []) ⊎ (r.orders ≡ [])) × Stamped ceiling r.intended_amount_aed r.orders

stamp-Stamped :
    (ceiling : Option Decimal) (a : Decimal) (os : List Order)
    → Keeps ceiling a
    → Stamped ceiling a (stamp a os)
unfolding stamp
stamp-Stamped ceiling a [] h = tt
stamp-Stamped ceiling a (o ∷ os) h = (refl, h)

module _ (v : Venues) (upper : String → String) (cfg : StrategyConfig) (router : SmartRouter)
    (overlays : List Overlay) (names : List String) (ceiling : Option Decimal) where
  open v use {World}

  abbrev pub Accounted : Result ExecutionResult × World → Type 0
  Accounted (ok r, w) = Accounts ceiling r
  Accounted (raise e, w) = Unit

  conclude-Accounted :
      (a : Decimal) (r : ExecutionResult) (end : Result (List Order) × RouteTrace × World)
      → Keeps ceiling a
      → r.intended_amount_aed ≡ a
      → r.errors ≡ []
      → r.orders ≡ []
      → Accounted (conclude v upper cfg router overlays names a r end)
  conclude-Accounted a r (ok orders, t, w) h i e o =
      (inl e, rw i (stamp-Stamped ceiling a orders h))
  conclude-Accounted a r (raise not_implemented, t, w) h i e o = tt
  conclude-Accounted a r (raise other, t, w) h i e o = tt
  conclude-Accounted a r (raise insufficient_balance, t, w) h i e o = (inr o, rw o tt)
  conclude-Accounted a r (raise exchange_error, t, w) h i e o = (inr o, rw o tt)

  run_route-Accounted :
      (r : ExecutionResult) (c : RouteCandidate) (a : Decimal) (input : Option Decimal) (w : World)
      → Keeps ceiling a
      → r.intended_amount_aed ≡ a
      → r.errors ≡ []
      → r.orders ≡ []
      → Accounted (run_route v upper cfg router overlays names r c a input w)
  run_route-Accounted r c a none w h i e o = (inr o, rw o tt)
  run_route-Accounted r c a (some x) w h i e o = conclude-Accounted a r _ h i e o

  spend_clamped-Accounted :
      (d : RoutingDecision) (a : Decimal) (clamped : Option Decimal) (w : World)
      → ((a' : Decimal) → clamped ≡ some a' → Keeps ceiling a')
      → Accounted (spend_clamped v upper cfg router overlays names d a clamped w)
  spend_clamped-Accounted d a none w h = (inr refl, tt)
  spend_clamped-Accounted d a (some a') w h =
      run_route-Accounted _ d.chosen a' _ w (h a' refl) refl refl refl

  spend_on-Accounted :
      (d : RoutingDecision) (a : Decimal) (w : World)
      → AtLeastOne ceiling
      → Keeps ceiling a
      → Accounted (spend_on v upper cfg router overlays names d a w)
  unfolding spend_on
  spend_on-Accounted d a w one h =
      spend_clamped-Accounted d a _ w
        (λ a' e. balance_clamp-Keeps ceiling cfg.max_pct_of_balance d.chosen a a' one h e)

  route_with-Accounted :
      (r : PickResult) (a : Decimal) (w : World)
      → AtLeastOne ceiling
      → Keeps ceiling a
      → Accounted (route_with v upper cfg router overlays names r a w)
  route_with-Accounted (picked d) a w one h = spend_on-Accounted d a w one h
  route_with-Accounted (below_minimum xs) a w one h = (inr refl, tt)
  route_with-Accounted no_route a w one h = (inr refl, tt)
  route_with-Accounted arithmetic a w one h = (inr refl, tt)

  after_overlays-Accounted :
      (verdict : Option (Option Decimal)) (w : World)
      → AtLeastOne ceiling
      → Accounted (after_overlays v upper cfg router overlays names verdict ceiling w)
  unfolding after_overlays
  after_overlays-Accounted none w one = tt
  after_overlays-Accounted (some none) w one = (inr refl, tt)
  after_overlays-Accounted (some (some a)) w one =
      route_with-Accounted
        (pick router (feeds v upper cfg router overlays names names w) cfg.pair
          (some (risk_clamp ceiling a)))
        (risk_clamp ceiling a) w one (risk_clamp-Keeps ceiling a)

  -- Whatever the venues, the overlays and the router do, a cycle that returns keeps these accounts,
  -- for a risk ceiling that is absent or at least 1 AED: if it reports an error it reports no
  -- order; and the first order that it reports is stamped with the cycle's AED amount, which is at
  -- most the ceiling.
  pub execute-Accounted :
      (input : CycleInput) (w : World)
      → AtLeastOne ceiling
      → Accounted (execute v upper cfg router overlays names input ceiling w)
  unfolding execute
  execute-Accounted input w one =
      let (clear, w') =
        sweep v upper cfg router overlays names names (sweep_pairs cfg.pair router.intermediates)
          w in
      go clear w'
    where
      go :
          (clear : Bool) (w' : World)
          → Accounted (
              if clear
              then after_overlays v upper cfg router overlays names
                  (run_overlays overlays
                    (context_of v upper cfg router overlays names input w')
                    cfg.base_amount_aed)
                  ceiling
                  w'
              else (
                ok (record (started v upper cfg router overlays names) {
                  errors = sweep_failed ∷ [];
                }),
                w',
              ))
      go true w' = after_overlays-Accounted _ w' one
      go false w' = (inr refl, tt)
