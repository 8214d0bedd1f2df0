-- ===== src/Strategy/Route.antt =====
-- `DCAStrategy._execute_route`: the hops of a route in turn, each fed with the net output of the
-- one before. What the method writes into the cycle's result is a `RouteTrace`.
pub mod Threading
use bitcoiners_dca.Prelude.{
  String, Bool, true, false, ◌&&◌, ◌||◌, Option, none, some, List, [], ◌∷◌, ◌++◌, if◌then◌else◌,
  str_eq, any,
}
use bitcoiners_dca.Prelude.Int.{pos, leb_ℤ}
use bitcoiners_dca.Decimal.{Decimal, sub}
use bitcoiners_dca.Models.{Order, positive}
use bitcoiners_dca.Routing.{TradeHop, TradeRoute, hops, hop_input_ccy}
use bitcoiners_dca.Strategy.{
  Error, insufficient_balance, exchange_error, Result, ok, raise, Venues, StrategyConfig, is_filled,
  is_partial, base_of, execute_hop,
}

pub record Orphan : Type 0 where
  pub amount : Decimal
  pub ccy : String
  pub exchange : String

pub record RouteTrace : Type 0 where
  pub deliberate_skip : Bool
  pub orphan : Option Orphan

abbrev is_last : List TradeHop → Bool
is_last [] = true
is_last (h ∷ hs) = false

-- The order may be kept: it is filled, or a partial fill of the last hop, and it bought something.
unfoldable pub is_settled : Bool → Order → Bool
is_settled last o =
    (is_filled o.status || (last && is_partial o.status)) && positive (base_of o.amount_base)

-- `amount_base`, less a fee that was taken from it.
unfoldable pub net_output : Order → Decimal
net_output o =
    if positive o.fee_base then sub (base_of o.amount_base) o.fee_base else base_of o.amount_base

-- The net amount is tested only where a fee was taken.
abbrev consumed : Order → Bool
consumed o = positive o.fee_base && leb_ℤ (net_output o) (pos 0)

-- An orphan is recorded from the second hop on.
abbrev strand : List Order → TradeHop → Decimal → RouteTrace → RouteTrace
strand [] hop amount t = t
strand (o ∷ os) hop amount t = record t {
  orphan = some (record { amount = amount; ccy = hop_input_ccy hop; exchange = hop.exchange });
}

-- A hop that raises: a missing balance becomes an ExchangeError from the second hop on.
abbrev hop_error : List Order → Error → Error
hop_error [] e = e
hop_error (o ∷ os) insufficient_balance = exchange_error
hop_error (o ∷ os) e = e

abbrev strand_on : Error → List Order → TradeHop → Decimal → RouteTrace → RouteTrace
strand_on insufficient_balance done hop amount t = strand done hop amount t
strand_on _ done hop amount t = t

module _ (v : Venues) (cfg : StrategyConfig) (known : List String) where
  open v use {World}

  abbrev Outcome : Type 0
  Outcome = Result (List Order) × RouteTrace × World

  -- The result of one hop: an exception, a maker order that did not fill, or an order, with which
  -- `next` goes on.
  abbrev take_hop :
      TradeHop
      → Bool
      → Decimal
      → List Order
      → RouteTrace
      → Result (Option Order) × World
      → (Decimal → List Order → World → Outcome)
      → Outcome
  take_hop hop last amount done t (raise e, w) next =
      (raise (hop_error done e), strand_on e done hop amount t, w)
  take_hop hop last amount done t (ok none, w) next =
      (ok done, record t { deliberate_skip = true }, w)
  take_hop hop last amount done t (ok (some o), w) next =
      if is_settled last o
      then (if consumed o
          then (raise exchange_error, t, w)
          else next (net_output o) (done ++ o ∷ []) w)
      else (raise exchange_error, strand done hop amount t, w)

  -- The loop, with the orders placed so far.
  unfoldable pub walk : List TradeHop → Decimal → List Order → RouteTrace → World → Outcome
  unfolding is_settled net_output
  walk [] amount done t w = (ok done, t, w)
  walk (hop ∷ rest) amount done t w =
      let onwards = λ (net : Decimal) (done' : List Order) (w' : World). walk rest net done' t w' in
      if any (str_eq hop.exchange) known
      then take_hop hop (is_last rest) amount done t (execute_hop v cfg hop amount w) onwards
      else (raise exchange_error, t, w)

  unfoldable pub execute_route : TradeRoute → Decimal → RouteTrace → World → Outcome
  unfolding walk
  execute_route r amount t w =
      if r.cross_exchange then (raise exchange_error, t, w) else walk (hops r) amount [] t w
