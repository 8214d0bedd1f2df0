-- ===== src/Strategy/Route/Threading.antt =====
-- A completed route as a chain of hops.
use bitcoiners_dca.Prelude.{
  ◌≡◌, refl, sym, ◌∙◌, ap, String, Bool, true, false, Option, none, some, List, [], ◌∷◌, ◌++◌,
  arith, inl, inr, Bool-cases, str_eq, any,
}
use mathlib.Core.Path.{subst}
use mathlib.Core.List.{append_assoc, append-nil}
use bitcoiners_dca.Prelude.Int.{pos, ◌<ℤ◌}
use bitcoiners_dca.Decimal.{Decimal}
use bitcoiners_dca.Models.{Order}
use bitcoiners_dca.Routing.{TradeHop, TradeRoute, hops}
use bitcoiners_dca.Strategy.{Result, ok, raise, Venues, StrategyConfig, execute_hop}
use bitcoiners_dca.Strategy.Route.{
  RouteTrace, is_settled, net_output, consumed, is_last, take_hop, walk, execute_route,
}

module _ (v : Venues) (cfg : StrategyConfig) (known : List String) where
  open v use {World}

  -- Every hop was executed on a known exchange, with the net output of the hop before it as its
  -- input, and its order settled and left something.
  pub data Threaded : List TradeHop → Decimal → World → List Order → World → Type 0 where
    at_end : {amount : Decimal} {w : World} → Threaded [] amount w [] w
    hopped :
        {hop : TradeHop} {rest : List TradeHop} {amount : Decimal} {w w' w'' : World} {o : Order}
        {os : List Order}
        → any (str_eq hop.exchange) known ≡ true
        → execute_hop v cfg hop amount w ≡ (ok (some o), w')
        → is_settled (is_last rest) o ≡ true
        → pos 0 <ℤ net_output o
        → Threaded rest (net_output o) w' os w''
        → Threaded (hop ∷ rest) amount w (o ∷ os) w''

  net_output_positive :
      (last : Bool) (o : Order)
      → is_settled last o ≡ true
      → consumed o ≡ false
      → pos 0 <ℤ net_output o
  unfolding is_settled net_output
  net_output_positive last o s c = ground arith

  abbrev orders_of : Result (List Order) → List Order
  orders_of (ok os) = os
  orders_of (raise e) = []

  abbrev Completes : List TradeHop → Decimal → List Order → World → List Order → World → Type 0
  Completes hs amount done w os w' =
      (new : List Order) × (os ≡ done ++ new) × Threaded hs amount w new w'

  -- One hop of a completed walk, where the walk of the remaining hops completes.
  take_hop-Completes :
      (hop : TradeHop) (rest : List TradeHop) (amount : Decimal) (done : List Order)
      (t : RouteTrace) (w : World) (os : List Order) (t' : RouteTrace) (w' : World)
      → any (str_eq hop.exchange) known ≡ true
      → t'.deliberate_skip ≡ false
      → ((net : Decimal) (done' : List Order) (w1 : World)
          → walk v cfg known rest net done' t w1 ≡ (ok os, t', w')
          → Completes rest net done' w1 os w')
      → (r : Result (Option Order) × World) → execute_hop v cfg hop amount w ≡ r
      → take_hop v cfg known hop
          (is_last rest)
          amount
          done
          t
          r
          (λ net done' w1. walk v cfg known rest net done' t w1)
        ≡ (ok os, t', w')
      → Completes (hop ∷ rest) amount done w os w'
  take_hop-Completes hop rest amount done t w os t' w' k f onwards (raise x, w1) er g =
      absurd (ground arith)
  take_hop-Completes hop rest amount done t w os t' w' k f onwards (ok none, w1) er g =
      absurd (ground arith)
  take_hop-Completes hop rest amount done t w os t' w' k f onwards (ok (some o), w1) er g =
      elim (Bool-cases (is_settled (is_last rest) o)) [
        | inr unsettled ↦ absurd (ground arith)
        | inl settled ↦ elim (Bool-cases (consumed o)) [
          | inl spent ↦ absurd (ground arith)
          | inr left ↦
              let (new, same, chain) =
                onwards (net_output o) (done ++ o ∷ []) w1 (rw (settled, left) at g) in
              (
                o ∷ new,
                same ∙ append_assoc done (o ∷ []) new,
                hopped k er settled (net_output_positive (is_last rest) o settled left) chain,
              )
        ]
      ]

  walk-Completes :
      (hs : List TradeHop) (amount : Decimal) (done : List Order) (t : RouteTrace) (w : World)
      (os : List Order) (t' : RouteTrace) (w' : World)
      → walk v cfg known hs amount done t w ≡ (ok os, t', w')
      → t'.deliberate_skip ≡ false
      → Completes hs amount done w os w'
  unfolding walk
  walk-Completes [] amount done t w os t' w' e f = (
    [],
    sym (ap (λ r. orders_of r.0) e) ∙ sym (append-nil done),
    subst (Threaded [] amount w []) (ap (λ r. r.2) e) at_end,
  )
  walk-Completes (hop ∷ rest) amount done t w os t' w' e f =
      elim (Bool-cases (any (str_eq hop.exchange) known)) [
        | inr unknown ↦ absurd (ground arith)
        | inl k ↦
            take_hop-Completes hop rest amount done t w os t' w' k f
              (λ net done' w1 h. walk-Completes rest net done' t w1 os t' w' h f) _ refl
              (rw (k, walk) at e)
      ]

  -- A route that completes without a deliberate skip has executed all its hops in order, one order
  -- each: each hop with the net output of the hop before it as its input, and on a known exchange.
  -- Each order was filled, or filled in part at the last hop, and left a positive amount.
  pub execute_route-Threaded :
      (r : TradeRoute) (amount : Decimal) (t : RouteTrace) (w : World) (os : List Order)
      (t' : RouteTrace) (w' : World)
      → execute_route v cfg known r amount t w ≡ (ok os, t', w')
      → t'.deliberate_skip ≡ false
      → Threaded (hops r) amount w os w'
  unfolding execute_route
  execute_route-Threaded r amount t w os t' w' e f = elim (Bool-cases r.cross_exchange) [
    | inl cross ↦ absurd (ground arith)
    | inr single ↦
        let (new, same, chain) =
          walk-Completes (hops r) amount [] t w os t' w' (rw (single, execute_route) at e) f in
        subst (λ orders. Threaded (hops r) amount w orders w') (sym same) chain
  ]
