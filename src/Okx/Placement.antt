-- ===== src/Okx/Placement.antt =====
-- How many orders a placement leaves on the exchange under its client order id.
use mathlib.Core.Path.{subst}
use bitcoiners_dca.Prelude.{
  ℕ, zero, suc, ◌+◌, ◌≤◌, ◌≡◌, sym, ◌∙◌, String, false, Option, none, some, arith,
}
use bitcoiners_dca.Decimal.{Decimal, div}
use bitcoiners_dca.Models.{Pair, Order}
use bitcoiners_dca.Strategy.{insufficient_balance, Result, ok, raise}
use bitcoiners_dca.Exchange.Settling.{poll_until_settled-Settles}
use bitcoiners_dca.Okx.{
  Failure, network, insufficient_funds, order_not_found, unknown_state, other_failure, Answer,
  answer, failed, RawOrder, order_for_client_id, after_place, after_lookup, retry, place_idempotent,
  Client, Clock, finish_market, finish_limit, place_market_buy, create_market_buy_only,
  place_limit_buy, create_limit_buy_only, create_limit,
}

-- Of a call that creates an order, with so many orders before and after it: an answer means one
-- more, a refusal for lack of funds none, and any other exception at most one more.
abbrev pub Landed : ℕ → Answer RawOrder → ℕ → Type 0
Landed n (answer raw) m = m ≡ n + 1
Landed n (failed insufficient_funds) m = m ≡ n
Landed n (failed _) m = m ≤ n + 1

-- Of a lookup: an order is found only if there is one, and is missed only if there is none.
abbrev pub IsTruthful : Answer (Option RawOrder) → ℕ → Type 0
IsTruthful (answer (some raw)) m = 1 ≤ m
IsTruthful (answer none) m = m ≡ 0
IsTruthful (failed order_not_found) m = m ≡ 0
IsTruthful (failed _) m = Unit

-- Of a placement, with so many orders after it and none before.
abbrev Once : Answer Order → ℕ → Type 0
Once (answer o) m = m ≡ 1
Once (failed insufficient_funds) m = m ≡ 0
Once (failed _) m = m ≤ 1

abbrev pub BoughtOnce : Result Order → ℕ → Type 0
BoughtOnce (ok o) m = m ≡ 1
BoughtOnce (raise insufficient_balance) m = m ≡ 0
BoughtOnce (raise _) m = m ≤ 1

module _ {W : Type 0} (placed : W → ℕ) where
  abbrev OnceIn : Answer Order × W → Type 0
  OnceIn r = Once r.0 (placed r.1)

  module _ (normalize : RawOrder → Order) (place : W → Answer RawOrder × W)
      (fetch_order : W → Answer (Option RawOrder) × W)
      (lands : (w : W) → Landed (placed w) (place w).0 (placed (place w).1))
      (truthful : (w : W) → IsTruthful (fetch_order w).0 (placed (fetch_order w).1))
      (kept : (w : W) → placed (fetch_order w).1 ≡ placed w) where
    after_place-Once :
        (r : Answer RawOrder × W) (again : Failure → W → Answer Order × W)
        → Landed 0 r.0 (placed r.1)
        → ((w : W) → placed w ≤ 1 → OnceIn (again network w))
        → OnceIn (after_place normalize place fetch_order r again)
    after_place-Once (answer raw, w) again l next = l
    after_place-Once (failed network, w) again l next = next w l
    after_place-Once (failed insufficient_funds, w) again l next = l
    after_place-Once (failed order_not_found, w) again l next = l
    after_place-Once (failed unknown_state, w) again l next = l
    after_place-Once (failed other_failure, w) again l next = l

    after_lookup-Once :
        (a : Answer (Option RawOrder)) (w : W) (attempt : W → Answer Order × W)
        → IsTruthful a (placed w)
        → placed w ≤ 1
        → (placed w ≡ 0 → OnceIn (attempt w))
        → OnceIn (after_lookup normalize place fetch_order (order_for_client_id a) w attempt)
    after_lookup-Once (answer (some raw)) w attempt t few next = omega arith
    after_lookup-Once (answer none) w attempt t few next = next t
    after_lookup-Once (failed order_not_found) w attempt t few next = next t
    after_lookup-Once (failed network) w attempt t few next = few
    after_lookup-Once (failed insufficient_funds) w attempt t few next = few
    after_lookup-Once (failed unknown_state) w attempt t few next = few
    after_lookup-Once (failed other_failure) w attempt t few next = few

    first-Landed : (w : W) → placed w ≡ 0 → Landed 0 (place w).0 (placed (place w).1)
    first-Landed w none_yet =
        subst (λ n. Landed n (place w).0 (placed (place w).1)) none_yet (lands w)

    retry-Once :
        (n : ℕ) (w : W) → placed w ≤ 1 → OnceIn (retry normalize place fetch_order n network w)
    unfolding retry
    retry-Once zero w few = few
    retry-Once (suc n) w few =
        let w1 = (fetch_order w).1 in
        after_lookup-Once (fetch_order w).0 w1 _ (truthful w) (omega (arith, kept w)) (λ none_yet.
          after_place-Once (place w1) _ (first-Landed w1 none_yet)
            (λ w' few'. retry-Once n w' few'))

    place_idempotent-Once :
        (w : W) → placed w ≡ 0 → OnceIn (place_idempotent normalize place fetch_order w)
    unfolding place_idempotent
    place_idempotent-Once w none_yet =
        after_place-Once (place w) _ (first-Landed w none_yet) (λ w' few. retry-Once 2 w' few)

-- What the exchange does with a client order id, by the number of orders that bear it. A call that
-- ends in an exception is over: its order does not arrive later.
pub record Counts (client : Client) (id : String) (placed : client.World → ℕ) : Type 0 where
  pub market_lands :
      (p : Pair) (a : Decimal) (w : client.World)
      → Landed
          (placed w)
          (client.create_market_buy_order id p a w).0
          (placed (client.create_market_buy_order id p a w).1)
  pub limit_lands :
      (p : Pair) (a b : Decimal) (w : client.World)
      → Landed
          (placed w)
          (client.create_limit_buy_order id p a b w).0
          (placed (client.create_limit_buy_order id p a b w).1)
  pub lookup_truthful :
      (p : Pair) (w : client.World)
      → IsTruthful (client.fetch_order id p w).0 (placed (client.fetch_order id p w).1)
  pub lookup_keeps : (p : Pair) (w : client.World) → placed (client.fetch_order id p w).1 ≡ placed w
  pub get_keeps :
      (p : Pair) (n : ℕ) (w : client.World) → placed (client.get_order p n w).1 ≡ placed w

module _ (client : Client) (id : String) (placed : client.World → ℕ)
    (counts : Counts client id placed) (c : Clock) where
  settled-BoughtOnce : (r : Result Order) (m : ℕ) (o : Order) → r ≡ ok o → m ≡ 1 → BoughtOnce r m
  settled-BoughtOnce r m o e one = subst (λ x. BoughtOnce x m) (sym e) one

  finish_market-BoughtOnce :
      (p : Pair) (r : Answer Order × client.World)
      → Once r.0 (placed r.1)
      → BoughtOnce (finish_market client c p r).0 (placed (finish_market client c p r).1)
  finish_market-BoughtOnce p (answer o, w) h =
      let ((last, e), same) =
        poll_until_settled-Settles placed (client.get_order p o.order_id)
          (counts.get_keeps p o.order_id) 15 o w in
      settled-BoughtOnce _ _ last e (same ∙ h)
  finish_market-BoughtOnce p (failed network, w) h = h
  finish_market-BoughtOnce p (failed insufficient_funds, w) h = h
  finish_market-BoughtOnce p (failed order_not_found, w) h = h
  finish_market-BoughtOnce p (failed unknown_state, w) h = h
  finish_market-BoughtOnce p (failed other_failure, w) h = h

  finish_limit-BoughtOnce :
      (r : Answer Order × client.World)
      → Once r.0 (placed r.1)
      → BoughtOnce (finish_limit client c r).0 (placed (finish_limit client c r).1)
  finish_limit-BoughtOnce (answer o, w) h = h
  finish_limit-BoughtOnce (failed network, w) h = h
  finish_limit-BoughtOnce (failed insufficient_funds, w) h = h
  finish_limit-BoughtOnce (failed order_not_found, w) h = h
  finish_limit-BoughtOnce (failed unknown_state, w) h = h
  finish_limit-BoughtOnce (failed other_failure, w) h = h

  place_market_buy-BoughtOnce :
      (p : Pair) (amount : Decimal) (w : client.World)
      → placed w ≡ 0
      → BoughtOnce
          (place_market_buy client c false id p amount w).0
          (placed (place_market_buy client c false id p amount w).1)
  unfolding place_market_buy create_market_buy_only
  place_market_buy-BoughtOnce p amount w fresh = finish_market-BoughtOnce p _ (
      place_idempotent-Once placed _ (client.create_market_buy_order id p amount)
        (client.fetch_order id p) (counts.market_lands p amount) (counts.lookup_truthful p)
        (counts.lookup_keeps p) w fresh)

  create_limit-Once :
      (p : Pair) (amount price : Decimal) (base : Option Decimal) (w : client.World)
      → placed w ≡ 0
      → Once
          (create_limit client c id p amount price base w).0
          (placed (create_limit client c id p amount price base w).1)
  unfolding create_limit
  create_limit-Once p amount price none w fresh = omega arith
  create_limit-Once p amount price (some base) w fresh =
      place_idempotent-Once placed _ (client.create_limit_buy_order id p base price)
        (client.fetch_order id p) (counts.limit_lands p base price) (counts.lookup_truthful p)
        (counts.lookup_keeps p) w fresh

  place_limit_buy-BoughtOnce :
      (p : Pair) (amount price : Decimal) (w : client.World)
      → placed w ≡ 0
      → BoughtOnce
          (place_limit_buy client c false id p amount price w).0
          (placed (place_limit_buy client c false id p amount price w).1)
  unfolding place_limit_buy create_limit_buy_only
  place_limit_buy-BoughtOnce p amount price w fresh =
      finish_limit-BoughtOnce _ (create_limit-Once p amount price (div amount price) w fresh)

  -- On an exchange that keeps its word on client order ids, a live market buy under a fresh id
  -- leaves exactly one order if it returns, none if it reports a lack of funds, and at most one
  -- whatever else it raises, however many of its attempts ended in a network error; and so does a
  -- live limit buy.
  pub place_buys-BoughtOnce :
      (p : Pair) (amount price : Decimal) (w : client.World)
      → placed w ≡ 0
      → BoughtOnce
          (place_market_buy client c false id p amount w).0
          (placed (place_market_buy client c false id p amount w).1)
        × BoughtOnce
            (place_limit_buy client c false id p amount price w).0
            (placed (place_limit_buy client c false id p amount price w).1)
  place_buys-BoughtOnce p amount price w fresh = (
    place_market_buy-BoughtOnce p amount w fresh,
    place_limit_buy-BoughtOnce p amount price w fresh,
  )
