-- ===== src/Exchange.antt =====
-- src/bitcoiners_dca/exchanges/base.py: what the base class of the adapters does itself. The calls
-- that an adapter makes of its exchange are parameters. A numeral that cannot be read counts as 0
-- before these functions are reached. `polls` is how often the clock lets a loop poll.
pub mod Settling
pub mod Sweep
pub mod Waiting
use bitcoiners_dca.Prelude.{
  ℕ, zero, suc, ◌+◌, String, Bool, true, false, ◌&&◌, ◌||◌, Option, none, some, List, [], ◌∷◌,
  if◌then◌else◌, ◌==◌, str_eq,
}
use bitcoiners_dca.Prelude.Int.{pos, ltb_ℤ, leb_ℤ}
use bitcoiners_dca.Decimal.{Decimal, whole}
use bitcoiners_dca.Models.{
  Pair, Order, OrderStatus, pending, partial, filled, cancelled, rejected, positive, nonzero,
}
use bitcoiners_dca.Strategy.{exchange_error, Result, ok, raise, base_of}

-- An entry of `fetch_open_orders`: `id` is absent if the exchange gave none, and `tagged` says
-- whether the client order id starts with `BOT_CLORD_PREFIX`.
pub record OpenOrder : Type 0 where
  pub id : Option String
  pub tagged : Bool

abbrev upgraded : OrderStatus → Bool → OrderStatus
upgraded pending true = partial
upgraded s _ = s

-- `resolve_partial_status`
unfoldable pub resolve_partial_status : OrderStatus → Decimal → Decimal → OrderStatus
resolve_partial_status mapped f a = upgraded mapped (positive f && (leb_ℤ a (pos 0) || ltb_ℤ f a))

abbrev pub is_terminal : OrderStatus → Bool
is_terminal filled = true
is_terminal cancelled = true
is_terminal rejected = true
is_terminal _ = false

module _ {W : Type 0} (cancel : String → W → Result Order × W) where
  -- The numbers of cancelled orders and of failures.
  abbrev pub count_answer : Result Order → ℕ × ℕ → ℕ × ℕ
  count_answer (ok o) (n, failures) = (n + 1, failures)
  count_answer (raise e) (n, failures) = (n, failures + 1)

  abbrev pub try_cancel : String → (ℕ × ℕ) × W → (ℕ × ℕ) × W
  try_cancel id (counts, w) = let (answer, w') = cancel id w in (count_answer answer counts, w')

  -- One round of the loop: orders without an id and orders of the user are left alone.
  abbrev sweep_one : Option String → Bool → (ℕ × ℕ) × W → (ℕ × ℕ) × W
  sweep_one none tagged s = s
  sweep_one (some id) false s = s
  sweep_one (some id) true s = try_cancel id s

  unfoldable pub sweep_orders : List OpenOrder → (ℕ × ℕ) × W → (ℕ × ℕ) × W
  sweep_orders [] s = s
  sweep_orders (o ∷ os) s = sweep_orders os (sweep_one o.id o.tagged s)

  abbrev pub sweep_result : (ℕ × ℕ) × W → Result ℕ × W
  sweep_result ((n, zero), w) = (ok n, w)
  sweep_result ((n, suc failures), w) = (raise exchange_error, w)

  -- `cancel_all_open_orders`; `none` is a list that could not be fetched.
  unfoldable pub cancel_all_open_orders : Option (List OpenOrder) → W → Result ℕ × W
  unfolding sweep_orders
  cancel_all_open_orders none w = (ok 0, w)
  cancel_all_open_orders (some os) w = sweep_result (sweep_orders os ((0, 0), w))

module _ {W : Type 0} (get_order : W → Result Order × W) where
  abbrev got : Result Order × W → Result (Option Order) × W
  got (ok o, w) = (ok (some o), w)
  got (raise e, w) = (raise e, w)

  -- After a poll: stop, or go on with `next`.
  abbrev polled : Result Order × W → (Option Order → W → Result Order × W) → Result Order × W
  polled (raise e, w) next = (raise e, w)
  polled (ok o, w) next = if is_terminal o.status then (ok o, w) else next (some o) w

  abbrev last_seen : Option Order → W → Result Order × W
  last_seen none w = get_order w
  last_seen (some o) w = (ok o, w)

  -- `wait_for_fill`, from the loop's head on.
  unfoldable pub wait_from : ℕ → Option Order → W → Result Order × W
  wait_from zero last w = last_seen last w
  wait_from (suc polls) last w =
      let next = λ (o : Option Order) (w' : W). wait_from polls o w' in polled (get_order w) next

  unfoldable pub wait_for_fill : ℕ → W → Result Order × W
  unfolding wait_from
  wait_for_fill polls w = wait_from polls none w

-- ccxt's fee: its cost, if there is one, and its currency, stripped and in upper case.
pub record Fee : Type 0 where
  pub cost : Option Decimal
  pub currency : String

-- `split_fee_by_currency`, as (fee_base, fee_quote); `none` is a fee that is no dictionary.
unfoldable pub split_fee_by_currency : Option Fee → Pair → Decimal × Decimal
split_fee_by_currency none pair = (whole 0, whole 0)
split_fee_by_currency (some fee) pair =
    let cost = base_of fee.cost in
    if nonzero cost
    then (if str_eq fee.currency pair.base then (cost, whole 0) else (whole 0, cost))
    else (whole 0, whole 0)

abbrev pub settled : OrderStatus → Bool
settled filled = true
settled cancelled = true
settled _ = false

module _ {W : Type 0} (get_order : W → Result Order × W) where
  -- After a poll: keep the snapshot if there is a new one, stop if it is settled.
  abbrev pub polled_settled :
      Result Order × W → Order → (Order → W → Result Order × W) → Result Order × W
  polled_settled (raise e, w) snap next = next snap w
  polled_settled (ok o, w) snap next = if settled o.status then (ok o, w) else next o w

  unfoldable pub poll_from : ℕ → Order → W → Result Order × W
  poll_from zero snap w = (ok snap, w)
  poll_from (suc polls) snap w =
      let next = λ (o : Order) (w' : W). poll_from polls o w' in
      polled_settled (get_order w) snap next

  -- `_poll_until_settled` with so many polls at most.
  unfoldable pub poll_until_settled : ℕ → Order → W → Result Order × W
  unfolding poll_from
  poll_until_settled polls placed w =
      if placed.order_id == 0 || settled placed.status
      then (ok placed, w)
      else poll_from polls placed w
