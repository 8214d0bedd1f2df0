-- ===== src/Okx.antt =====
-- src/bitcoiners_dca/exchanges/okx.py: how the OKX adapter places a buy. The ccxt client's calls
-- are parameters; what they may raise is told apart as far as the adapter does. An order's number 0
-- is the empty `order_id`, and numerals that ccxt leaves out are `none`. Pairs are in upper case.
pub mod Placement
use bitcoiners_dca.Prelude.{
  ℕ, zero, suc, String, Bool, true, false, Option, none, some, if◌then◌else◌, str_eq,
}
use bitcoiners_dca.Decimal.{Decimal, whole, literal, mul, div}
use bitcoiners_dca.Models.{
  Pair, Order, OrderType, market, limit, OrderSide, buy, OrderStatus, pending, filled, cancelled,
  or_else,
}
use bitcoiners_dca.Strategy.{Error, insufficient_balance, exchange_error, other, Result, ok, raise}
use bitcoiners_dca.Exchange.{resolve_partial_status, Fee, split_fee_by_currency, poll_until_settled}

-- `network` is one of `_SAFE_RETRY_EXCEPTIONS`, and `unknown_state` the adapter's own refusal.
pub data Failure : Type 0 where
  network insufficient_funds order_not_found unknown_state other_failure : Failure

pub data Answer {ℓ} (A : Type ℓ) : Type ℓ where
  answer : A → Answer A
  failed : Failure → Answer A

-- ccxt's `status`; `other_status` is any other text, or none.
pub data RawStatus : Type 0 where
  open_order closed canceled other_status : RawStatus

-- ccxt's order, with the adapter's own reading of `side`, `type` and `timestamp`.
pub record RawOrder : Type 0 where
  pub id : ℕ
  pub status : RawStatus
  pub side : OrderSide
  pub type : OrderType
  pub amount : Option Decimal
  pub filled : Option Decimal
  pub average : Option Decimal
  pub price : Option Decimal
  pub fee : Option Fee
  pub timestamp : Option ℕ

pub data Lookup : Type 0 where
  found : RawOrder → Lookup
  absent unknown : Lookup

abbrev to_decimal : Option Decimal → Decimal
to_decimal none = whole 0
to_decimal (some d) = d

abbrev status_map : RawStatus → OrderStatus
status_map open_order = pending
status_map closed = filled
status_map canceled = cancelled
status_map other_status = pending

abbrev or_now : Option ℕ → ℕ → ℕ
or_now none now = now
or_now (some zero) now = now
or_now (some t) now = t

abbrev closed_at : RawStatus → ℕ → Option ℕ
closed_at closed now = some now
closed_at _ now = none

-- `raw.get("average") or raw.get("price")`
abbrev average_or_price : Option Decimal → Option Decimal → Decimal
average_or_price none p = to_decimal p
average_or_price (some a) p = or_else (some a) (to_decimal p)

-- `_normalize_order`, at the time `now`
unfoldable pub normalize_order : ℕ → RawOrder → Pair → Decimal → Order
unfolding resolve_partial_status split_fee_by_currency
normalize_order now raw pair quote_amount =
    let (fee_base, fee_quote) = split_fee_by_currency raw.fee pair in
    record {
      exchange = "okx";
      order_id = raw.id;
      pair = pair;
      side = raw.side;
      type = raw.type;
      amount_quote = quote_amount;
      amount_base = some (to_decimal raw.filled);
      price_filled_avg = some (average_or_price raw.average raw.price);
      fee_quote = fee_quote;
      fee_base = fee_base;
      status =
          resolve_partial_status (status_map raw.status) (to_decimal raw.filled)
            (to_decimal raw.amount);
      created_at = or_now raw.timestamp now;
      filled_at = closed_at raw.status now;
      amount_quote_aed = none;
    }

-- What `_order_for_client_id` makes of the client's answer, where `answer none` is an empty one.
abbrev pub order_for_client_id : Answer (Option RawOrder) → Lookup
order_for_client_id (answer (some raw)) = found raw
order_for_client_id (answer none) = absent
order_for_client_id (failed order_not_found) = absent
order_for_client_id (failed _) = unknown

abbrev pub is_safe_retry : Failure → Bool
is_safe_retry network = true
is_safe_retry _ = false

module _ {W : Type 0} (normalize : RawOrder → Order) (place : W → Answer RawOrder × W)
    (fetch_order : W → Answer (Option RawOrder) × W) where
  -- The `try` of one attempt; `again` is the rest of the loop.
  abbrev pub after_place : Answer RawOrder × W → (Failure → W → Answer Order × W) → Answer Order × W
  after_place (answer raw, w) again = (answer (normalize raw), w)
  after_place (failed e, w) again = if is_safe_retry e then again e w else (failed e, w)

  -- The check before a further attempt.
  abbrev pub after_lookup : Lookup → W → (W → Answer Order × W) → Answer Order × W
  after_lookup unknown w attempt = (failed unknown_state, w)
  after_lookup (found raw) w attempt = (answer (normalize raw), w)
  after_lookup absent w attempt = attempt w

  -- The loop with so many attempts left, after an attempt that raised `last`.
  unfoldable pub retry : ℕ → Failure → W → Answer Order × W
  retry zero last w = (failed last, w)
  retry (suc attempts) last w =
      let again = λ (e : Failure) (w' : W). retry attempts e w' in
      let (looked, w1) = fetch_order w in
      after_lookup (order_for_client_id looked) w1 (λ w'. after_place (place w') again)

  -- `_place_idempotent`
  unfoldable pub place_idempotent : W → Answer Order × W
  unfolding retry
  place_idempotent w = after_place (place w) (λ e w'. retry 2 e w')

-- The `except` clauses of both placements.
abbrev pub translate : Failure → Error
translate insufficient_funds = insufficient_balance
translate _ = exchange_error

-- The time, and the number of an order that a dry run makes up.
pub record Clock : Type 0 where
  pub now : ℕ
  pub dry_id : ℕ

abbrev dry_fee : Pair → Decimal → Decimal → Decimal → Decimal
dry_fee pair amount aed usdt = mul amount (if str_eq pair.quote "AED" then aed else usdt)

-- The filled order that a dry run answers.
unfoldable dry_order : Clock → Pair → OrderType → Decimal → Decimal → Decimal → Decimal → Order
dry_order c pair kind amount base price fee = record {
  exchange = "okx";
  order_id = c.dry_id;
  pair = pair;
  side = buy;
  type = kind;
  amount_quote = amount;
  amount_base = some base;
  price_filled_avg = some price;
  fee_quote = fee;
  fee_base = whole 0;
  status = filled;
  created_at = c.now;
  filled_at = some c.now;
  amount_quote_aed = none;
}

-- The dry run of a market buy at the ask, and of a limit buy at its price.
unfoldable dry_market : Clock → Pair → Decimal → Result Decimal → Result Order
unfolding dry_order
dry_market c pair amount (raise e) = raise e
dry_market c pair amount (ok ask) = elim (div amount ask) [
  | none ↦ raise other
  | some base ↦
      ok
        (dry_order c pair market amount base ask (dry_fee pair amount (literal 6 3) (literal 15 4)))
]

unfoldable dry_limit : Clock → Pair → Decimal → Decimal → Result Order
unfolding dry_order
dry_limit c pair amount price = elim (div amount price) [
  | none ↦ raise other
  | some base ↦
      ok
        (dry_order c pair limit amount base price (dry_fee pair amount (literal 4 3) (literal 1 3)))
]

-- The client as the adapter calls it. A client order id is named in every call that creates an
-- order or looks one up.
pub record Client : Type 1 where
  pub World : Type 0
  pub create_market_buy_order : String → Pair → Decimal → World → Answer RawOrder × World
  pub create_limit_buy_order : String → Pair → Decimal → Decimal → World → Answer RawOrder × World
  pub fetch_order : String → Pair → World → Answer (Option RawOrder) × World
  pub get_order : Pair → ℕ → World → Result Order × World
  pub ask : Pair → World → Result Decimal

module _ (client : Client) (c : Clock) where
  -- `_create_market_buy_only`
  unfoldable pub create_market_buy_only :
      String → Pair → Decimal → client.World → Answer Order × client.World
  unfolding place_idempotent normalize_order
  create_market_buy_only id pair amount w =
      place_idempotent (λ raw. normalize_order c.now raw pair amount)
        (client.create_market_buy_order id pair amount) (client.fetch_order id pair) w

  abbrev pub finish_market : Pair → Answer Order × client.World → Result Order × client.World
  finish_market pair (failed e, w) = (raise (translate e), w)
  finish_market pair (answer o, w) = poll_until_settled (client.get_order pair o.order_id) 15 o w

  -- `place_market_buy`; `id` is what `make_bot_client_order_id` gave.
  unfoldable pub place_market_buy :
      Bool → String → Pair → Decimal → client.World → Result Order × client.World
  unfolding create_market_buy_only poll_until_settled dry_market
  place_market_buy dry_run id pair amount w =
      if dry_run
      then (dry_market c pair amount (client.ask pair w), w)
      else finish_market pair (create_market_buy_only id pair amount w)

  abbrev pub finish_limit : Answer Order × client.World → Result Order × client.World
  finish_limit (failed e, w) = (raise (translate e), w)
  finish_limit (answer o, w) = (ok o, w)

  -- The placement of a limit order for the base amount.
  unfoldable pub create_limit :
      String
      → Pair
      → Decimal
      → Decimal
      → Option Decimal
      → client.World
      → Answer Order × client.World
  unfolding place_idempotent normalize_order
  create_limit id pair amount price none w = (failed other_failure, w)
  create_limit id pair amount price (some base) w =
      place_idempotent (λ raw. normalize_order c.now raw pair amount)
        (client.create_limit_buy_order id pair base price) (client.fetch_order id pair) w

  -- `_create_limit_buy_only`, for the amount of base currency that the price allows.
  unfoldable pub create_limit_buy_only :
      String → Pair → Decimal → Decimal → client.World → Answer Order × client.World
  unfolding create_limit
  create_limit_buy_only id pair amount price w =
      create_limit id pair amount price (div amount price) w

  -- `place_limit_buy`
  unfoldable pub place_limit_buy :
      Bool → String → Pair → Decimal → Decimal → client.World → Result Order × client.World
  unfolding create_limit_buy_only dry_limit
  place_limit_buy dry_run id pair amount price w =
      if dry_run
      then (dry_limit c pair amount price, w)
      else finish_limit (create_limit_buy_only id pair amount price w)
