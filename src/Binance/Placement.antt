-- ===== src/Binance/Placement.antt =====
-- How many orders a placement leaves on Binance, which has no retry.
use mathlib.Core.Path.{subst}
use bitcoiners_dca.Prelude.{
  ℕ, ◌+◌, ◌≤◌, ◌≡◌, refl, sym, ◌∙◌, false, false, Option, none, some, arith,
}
use bitcoiners_dca.Decimal.{Decimal, div}
use bitcoiners_dca.Models.{Pair, Order}
use bitcoiners_dca.Strategy.{insufficient_balance, Result, ok, raise}
use bitcoiners_dca.Exchange.Settling.{poll_until_settled-Settles}
use bitcoiners_dca.Okx.{
  network, insufficient_funds, order_not_found, unknown_state, other_failure, Answer, answer,
  failed, RawOrder, Clock,
}
use bitcoiners_dca.Okx.Placement.{Landed}
use bitcoiners_dca.Binance.{
  TradeClient, fetched, get_order, read_order, after_market, buy_market, after_limit, limit_for,
  buy_limit,
}

-- What Binance promises, by the number of the bot's orders: a call that creates an order adds one
-- if it is answered, none for lack of funds, and at most one else; reading adds none.
pub record Counting (client : TradeClient) (orders : client.World → ℕ) : Type 0 where
  pub market_lands :
      (p : Pair) (a : Decimal) (w : client.World)
      → Landed
          (orders w)
          (client.create_market_buy_order_with_cost p a w).0
          (orders (client.create_market_buy_order_with_cost p a w).1)
  pub limit_lands :
      (p : Pair) (a b : Decimal) (w : client.World)
      → Landed
          (orders w)
          (client.create_limit_buy_order p a b w).0
          (orders (client.create_limit_buy_order p a b w).1)
  pub fetch_keeps :
      (p : Pair) (n : ℕ) (w : client.World) → orders (client.fetch_order p n w).1 ≡ orders w

-- Of a buy, with so many orders before and after it.
abbrev pub BuysOnce : ℕ → Result Order → ℕ → Type 0
BuysOnce n (ok o) m = m ≡ n + 1
BuysOnce n (raise insufficient_balance) m = m ≡ n
BuysOnce n (raise _) m = m ≤ n + 1

module _ (client : TradeClient) (orders : client.World → ℕ) (counting : Counting client orders)
    (c : Clock) (pair : Pair) where
  fetched_keeps :
      (r : Answer (RawOrder × Decimal) × client.World)
      → orders (fetched client c pair r).1 ≡ orders r.1
  fetched_keeps (failed e, w) = refl
  fetched_keeps (answer (raw, cost), w) = refl

  get_order_keeps : (n : ℕ) (w : client.World) → orders (get_order client c pair n w).1 ≡ orders w
  unfolding get_order
  get_order_keeps n w = fetched_keeps (client.fetch_order pair n w) ∙ counting.fetch_keeps pair n w

  after_market-BuysOnce :
      (n : ℕ) (amount : Decimal) (r : Answer RawOrder × client.World)
      → Landed n r.0 (orders r.1)
      → BuysOnce n
          (after_market client c pair amount r).0
          (orders (after_market client c pair amount r).1)
  after_market-BuysOnce n amount (answer raw, w) h =
      let o = read_order c.now raw pair amount in
      let ((last, e), same) =
        poll_until_settled-Settles orders (get_order client c pair o.order_id)
          (get_order_keeps o.order_id) 15 o w in
      subst (λ x. BuysOnce n x (orders (after_market client c pair amount (answer raw, w)).1))
        (sym e) (same ∙ h)
  after_market-BuysOnce n amount (failed network, w) h = h
  after_market-BuysOnce n amount (failed insufficient_funds, w) h = h
  after_market-BuysOnce n amount (failed order_not_found, w) h = h
  after_market-BuysOnce n amount (failed unknown_state, w) h = h
  after_market-BuysOnce n amount (failed other_failure, w) h = h

  after_limit-BuysOnce :
      (n : ℕ) (amount : Decimal) (r : Answer RawOrder × client.World)
      → Landed n r.0 (orders r.1)
      → BuysOnce n
          (after_limit client c pair amount r).0
          (orders (after_limit client c pair amount r).1)
  after_limit-BuysOnce n amount (answer raw, w) h = h
  after_limit-BuysOnce n amount (failed network, w) h = h
  after_limit-BuysOnce n amount (failed insufficient_funds, w) h = h
  after_limit-BuysOnce n amount (failed order_not_found, w) h = h
  after_limit-BuysOnce n amount (failed unknown_state, w) h = h
  after_limit-BuysOnce n amount (failed other_failure, w) h = h

  limit_for-BuysOnce :
      (amount price : Decimal) (base : Option Decimal) (w : client.World)
      → BuysOnce
          (orders w)
          (limit_for client c pair amount price base w).0
          (orders (limit_for client c pair amount price base w).1)
  limit_for-BuysOnce amount price none w = omega arith
  limit_for-BuysOnce amount price (some base) w =
      after_limit-BuysOnce (orders w) amount _ (counting.limit_lands pair base price w)

  -- On an exchange that keeps these promises, a live market buy, with the polls that follow it, and
  -- a live limit buy on Binance leave exactly one more order if they return, none if they report a
  -- lack of funds, and at most one more whatever else they raise.
  pub buys-BuysOnce :
      (amount price : Decimal) (w : client.World)
      → BuysOnce
          (orders w)
          (buy_market client c false pair amount w).0
          (orders (buy_market client c false pair amount w).1)
        × BuysOnce
            (orders w)
            (buy_limit client c false pair amount price w).0
            (orders (buy_limit client c false pair amount price w).1)
  unfolding buy_market buy_limit
  buys-BuysOnce amount price w = (
    after_market-BuysOnce (orders w) amount _ (counting.market_lands pair amount w),
    limit_for-BuysOnce amount price (div amount price) w,
  )
