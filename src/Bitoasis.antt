-- ===== src/Bitoasis.antt =====
-- src/bitcoiners_dca/exchanges/bitoasis.py: how the BitOasis adapter reads an order and sweeps; its
-- placements are in Placing. The HTTP calls are parameters. Numerals are texts there, so that a
-- missing or empty one is `none` and any other counts as true. An order's number 0 is the empty
-- `order_id`. Pairs are in upper case.
pub mod Placing
pub mod Orders
use bitcoiners_dca.Prelude.{
  ℕ, ◌+◌, Bool, true, false, ◌||◌, Option, none, some, List, [], ◌∷◌, if◌then◌else◌, ◌==◌, leb,
}
use bitcoiners_dca.Decimal.{Decimal, whole}
use bitcoiners_dca.Models.{
  Pair, Order, OrderType, OrderSide, OrderStatus, pending, filled, cancelled,
}
use bitcoiners_dca.Strategy.{Result, ok, raise, base_of, is_filled}
use bitcoiners_dca.Exchange.{resolve_partial_status}

-- BitOasis's `status`; `unclear` is any other text.
pub data BitStatus : Type 0 where
  open_order done canceled unclear : BitStatus

pub record BitOrder : Type 0 where
  pub id : ℕ
  pub status : BitStatus
  pub side : OrderSide
  pub type : OrderType
  pub base_amount : Option Decimal
  pub executed_amount : Option Decimal
  pub avg_execution_price : Option Decimal
  pub price : Option Decimal
  pub fee : Option Decimal
  pub date_created : Option ℕ

-- What a request comes to: no answer, or an answer with its status code, whether its text mentions
-- a lack of funds, and its body, if that is JSON.
pub data Reply {ℓ} (A : Type ℓ) : Type ℓ where
  no_answer : Reply A
  answered : ℕ → Bool → Option A → Reply A

-- The exceptions of `_request` for a status code, each an `ExchangeError`.
pub data Refusal : Type 0 where
  auth_error rate_limit server_error http_error : Refusal

abbrev map_status : BitStatus → OrderStatus
map_status open_order = pending
map_status done = filled
map_status canceled = cancelled
map_status unclear = pending

abbrev pub executed_of : Option Decimal → Bool → Option Decimal → Option Decimal
executed_of (some x) is_done base = some x
executed_of none true base = some (base_of base)
executed_of none false base = none

abbrev first_given : Option Decimal → Option Decimal → Decimal
first_given (some a) p = a
first_given none p = base_of p

-- `_parse_iso`
abbrev parsed_or_now : Option ℕ → ℕ → ℕ
parsed_or_now none now = now
parsed_or_now (some t) now = t

-- `_normalize_order`, at the time `now`
unfoldable pub read_order : ℕ → BitOrder → Pair → Decimal → Order
unfolding resolve_partial_status
read_order now raw pair quote_amount =
    let status =
      resolve_partial_status (map_status raw.status) (base_of raw.executed_amount)
        (base_of raw.base_amount) in
    record {
      exchange = "bitoasis";
      order_id = raw.id;
      pair = pair;
      side = raw.side;
      type = raw.type;
      amount_quote = quote_amount;
      amount_base = executed_of raw.executed_amount (is_filled status) raw.base_amount;
      price_filled_avg = some (first_given raw.avg_execution_price raw.price);
      fee_quote = base_of raw.fee;
      fee_base = whole 0;
      status = status;
      created_at = parsed_or_now raw.date_created now;
      filled_at = if is_filled status then some (parsed_or_now raw.date_created now) else none;
      amount_quote_aed = none;
    }

-- The exception for a status code, if it is one.
unfoldable pub refusal_for : ℕ → Option Refusal
refusal_for code =
    if code == 401 || code == 403
    then some auth_error
    else if code == 429
    then some rate_limit
    else if code == 500 || (code == 502 || (code == 503 || code == 504))
    then some server_error
    else if leb 400 code
    then some http_error
    else none

module _ {W : Type 0} (cancel : ℕ → W → Result Order × W) where
  abbrev count_cancel : ℕ → Result Order × W → ℕ × W
  count_cancel n (ok o, w) = (n + 1, w)
  count_cancel n (raise e, w) = (n, w)

  abbrev cancel_one : Option ℕ → ℕ × W → ℕ × W
  cancel_one none s = s
  cancel_one (some id) (n, w) = count_cancel n (cancel id w)

  -- The loop over the open orders, by their ids.
  unfoldable pub cancel_each : List (Option ℕ) → ℕ × W → ℕ × W
  cancel_each [] s = s
  cancel_each (id ∷ ids) s = cancel_each ids (cancel_one id s)

  -- `cancel_all_open_orders`, by whether DCA_BITOASIS_SWEEP_ALL is set; `none` is a list that could
  -- not be fetched.
  unfoldable pub sweep_all : Bool → Option (List (Option ℕ)) → W → ℕ × W
  unfolding cancel_each
  sweep_all false orders w = (0, w)
  sweep_all true none w = (0, w)
  sweep_all true (some ids) w = cancel_each ids (0, w)
