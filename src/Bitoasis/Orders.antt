-- ===== src/Bitoasis/Orders.antt =====
-- How many orders a placement leaves on the exchange, and what a read order says of its fill.
use mathlib.Core.Path.{subst}
use bitcoiners_dca.Prelude.{
  ℕ, ◌+◌, ◌≤◌, ◌<◌, ◌≡◌, refl, ◌⊎◌, inl, inr, false, Option, none, some, arith, Bool-cases,
  Option-cases, sym, ◌∙◌,
}
use bitcoiners_dca.Prelude.Int.{pos, leb_ℤ}
use bitcoiners_dca.Decimal.{Decimal, div}
use bitcoiners_dca.Models.{
  Pair, Order, OrderType, market, limit, OrderStatus, pending, partial, filled, cancelled, rejected,
}
use bitcoiners_dca.Strategy.{Result, ok, raise, is_filled}
use bitcoiners_dca.Exchange.Settling.{poll_until_settled-Settles}
use bitcoiners_dca.Bitoasis.{
  BitOrder, Reply, no_answer, answered, refusal_for, read_order, executed_of,
}
use bitcoiners_dca.Bitoasis.Placing.{
  BitClient, placed, settle_market, post_market, market_at, place_market, post_limit, place_limit,
  is_below_minimum, to_satoshi,
}

-- Of one post, with so many orders before and after it: an order that is answered is there, a
-- refusal of the request itself (4xx) leaves none, and any other failure at most one.
abbrev pub Posted : ℕ → Reply BitOrder → ℕ → Type 0
Posted n no_answer m = m ≤ n + 1
Posted n (answered code funds (some raw)) m = (m ≤ n + 1) × ((400 ≤ code) ⊎ (m ≡ n + 1))
Posted n (answered code funds none) m = m ≤ n + 1

-- Of a placement: a returned order is there, and there is at most one whatever was raised.
abbrev pub Bought : ℕ → Result Order → ℕ → Type 0
Bought n (ok o) m = m ≡ n + 1
Bought n (raise e) m = m ≤ n + 1

-- What BitOasis does with orders, by their number.
pub record Keeps (client : BitClient) (orders : client.World → ℕ) : Type 0 where
  pub posts :
      (p : Pair) (t : OrderType) (a : Decimal) (price : Option Decimal) (w : client.World)
      → Posted
          (orders w)
          (client.post_order p t a price w).0
          (orders (client.post_order p t a price w).1)
  pub get_keeps :
      (p : Pair) (n : ℕ) (w : client.World) → orders (client.get_order p n w).1 ≡ orders w

refused_from : (code : ℕ) → refusal_for code ≡ none → code < 400
unfolding refusal_for
refused_from code e = ground arith

le_suc : (n : ℕ) → n ≤ n + 1
le_suc n = omega arith

returned-Bought :
    (n : ℕ) (r : Result Order) (m : ℕ) (o : Order) → r ≡ ok o → m ≡ n + 1 → Bought n r m
returned-Bought n r m o e one = subst (λ x. Bought n x m) (sym e) one

module _ (client : BitClient) (now : ℕ) (orders : client.World → ℕ)
    (keeps : Keeps client orders) where
  placed-Bought :
      (n : ℕ) (p : Pair) (a : Decimal) (r : Reply BitOrder × client.World)
      → Posted n r.0 (orders r.1)
      → Bought n (placed client now p a r).0 (orders (placed client now p a r).1)
  placed-Bought n p a (no_answer, w) h = h
  placed-Bought n p a (answered code funds none, w) h = elim (Option-cases (refusal_for code)) [
    | inl through ↦ rw through h
    | inr (refusal, e) ↦ rw e h
  ]
  placed-Bought n p a (answered code funds (some raw), w) h =
      elim (Option-cases (refusal_for code)) [
        | inl through ↦ let below = refused_from code through in rw through (ground arith)
        | inr (refusal, e) ↦ rw e h.0
      ]

  settle_market-Bought :
      (n : ℕ) (p : Pair) (r : Result Order × client.World)
      → Bought n r.0 (orders r.1)
      → Bought n (settle_market client now p r).0 (orders (settle_market client now p r).1)
  settle_market-Bought n p (raise e, w) h = h
  settle_market-Bought n p (ok o, w) h =
      let ((last, e), same) =
        poll_until_settled-Settles orders (client.get_order p o.order_id)
          (keeps.get_keeps p o.order_id) 15 o w in
      returned-Bought n _ _ last e (same ∙ h)

  post_market-Bought :
      (p : Pair) (a : Decimal) (exact : Option Decimal) (w : client.World)
      → Bought
          (orders w)
          (post_market client now p a exact w).0
          (orders (post_market client now p a exact w).1)
  unfolding post_market
  post_market-Bought p a none w = omega arith
  post_market-Bought p a (some exact) w =
      elim (Bool-cases (is_below_minimum p (to_satoshi exact))) [
        | inl small ↦ rw small (le_suc (orders w))
        | inr enough ↦ rw enough (
            settle_market-Bought (orders w) p _
              (placed-Bought (orders w) p a _ (keeps.posts p market (to_satoshi exact) none w)))
      ]

  market_at-Bought :
      (p : Pair) (a : Decimal) (ask : Result Decimal) (w : client.World)
      → Bought
          (orders w)
          (market_at client now p a ask w).0
          (orders (market_at client now p a ask w).1)
  unfolding market_at
  market_at-Bought p a (raise e) w = omega arith
  market_at-Bought p a (ok ask) w = elim (Bool-cases (leb_ℤ ask (pos 0))) [
    | inl none_asked ↦ rw none_asked (le_suc (orders w))
    | inr asked ↦ rw asked (post_market-Bought p a (div a ask) w)
  ]

  post_limit-Bought :
      (p : Pair) (a price : Decimal) (base : Option Decimal) (w : client.World)
      → Bought
          (orders w)
          (post_limit client now p a price base w).0
          (orders (post_limit client now p a price base w).1)
  unfolding post_limit
  post_limit-Bought p a price none w = omega arith
  post_limit-Bought p a price (some base) w =
      placed-Bought (orders w) p a _ (keeps.posts p limit (to_satoshi base) (some price) w)

  -- Without idempotency keys, a live market buy and a live limit buy each post at most once: the
  -- placement that returns leaves exactly one more order, and the one that raises at most one more.
  pub place_buys-Bought :
      (id : ℕ) (p : Pair) (a price : Decimal) (w : client.World)
      → Bought
          (orders w)
          (place_market client now false id p a w).0
          (orders (place_market client now false id p a w).1)
        × Bought
            (orders w)
            (place_limit client now false id p a price w).0
            (orders (place_limit client now false id p a price w).1)
  unfolding place_market place_limit
  place_buys-Bought id p a price w =
      (market_at-Bought p a (client.ask p w) w, post_limit-Bought p a price (div a price) w)

executed_of-some :
    (executed : Option Decimal) (s : OrderStatus) (size : Option Decimal) (base : Decimal)
    → executed_of executed (is_filled s) size ≡ some base
    → (executed ≡ some base) ⊎ (s ≡ filled)
executed_of-some (some x) s size base e = inl e
executed_of-some none filled size base e = inr refl
executed_of-some none pending size base e = absurd (ground arith)
executed_of-some none partial size base e = absurd (ground arith)
executed_of-some none cancelled size base e = absurd (ground arith)
executed_of-some none rejected size base e = absurd (ground arith)

-- An order that is read claims a fill only if BitOasis gave an executed amount, or the order is
-- done: an open or cancelled order's size is never taken for a fill.
pub read_order-fill :
    (now : ℕ) (raw : BitOrder) (p : Pair) (a base : Decimal)
    → (read_order now raw p a).amount_base ≡ some base
    → (raw.executed_amount ≡ some base) ⊎ ((read_order now raw p a).status ≡ filled)
unfolding read_order
read_order-fill now raw p a base e =
    executed_of-some raw.executed_amount (read_order now raw p a).status raw.base_amount base e
