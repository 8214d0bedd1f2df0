-- ===== src/Binance.antt =====
-- src/bitcoiners_dca/exchanges/binance.py: how the Binance adapter places, reads and cancels
-- orders, its fees, minimums and balances. The client's calls are parameters; its orders and its
-- exceptions are those of the module Okx, which reads ccxt's orders by the same rules. Withdrawals
-- are in Withdrawals/FromBinance.
pub mod Placement
use bitcoiners_dca.Prelude.{
  ℕ, suc, String, Bool, true, false, ◌&&◌, Option, none, some, List, [], ◌∷◌, map, if◌then◌else◌,
}
use bitcoiners_dca.Decimal.{Decimal, whole, literal, mul, div}
use bitcoiners_dca.Models.{
  Pair, Ticker, from_prices, Balance, FeeSchedule, OrderMinimum, Order, OrderType, market, limit,
  OrderSide, buy, filled, cancelled, nonzero, positive,
}
use bitcoiners_dca.Strategy.{Error, insufficient_balance, exchange_error, other, Result, ok, raise}
use bitcoiners_dca.Exchange.{poll_until_settled}
use bitcoiners_dca.Okx.{
  Failure, insufficient_funds, Answer, answer, failed, RawOrder, Clock, normalize_order,
}

-- `_normalize_order`
unfoldable pub read_order : ℕ → RawOrder → Pair → Decimal → Order
unfolding normalize_order
read_order now raw pair quote_amount = record (normalize_order now raw pair quote_amount) {
  exchange = "binance";
}

unfoldable pub made_up : Clock → Pair → OrderType → Decimal → Decimal → Decimal → Decimal → Order
made_up c pair kind amount base price fee = record {
  exchange = "binance";
  order_id = c.dry_id;
  pair = pair;
  side = buy;
  type = kind;
  amount_quote = amount;
  amount_base = some base;
  price_filled_avg = some price;
  fee_quote = fee;
  fee_base = whole 0;
  status = filled;
  created_at = c.now;
  filled_at = some c.now;
  amount_quote_aed = none;
}

abbrev dry_buy : Clock → Pair → OrderType → Decimal → Decimal → Decimal → Result Order
dry_buy c pair kind amount price rate = elim (div amount price) [
  | none ↦ raise other
  | some base ↦ ok (made_up c pair kind amount base price (mul amount rate))
]

-- The dry run of a market buy, at the ask of the ticker.
unfoldable pub dry_market_buy : Clock → Pair → Decimal → Result Decimal → Result Order
unfolding made_up
dry_market_buy c pair amount (raise e) = raise e
dry_market_buy c pair amount (ok ask) = dry_buy c pair market amount ask (literal 1 3)

unfoldable pub dry_limit_buy : Clock → Pair → Decimal → Decimal → Result Order
unfolding made_up
dry_limit_buy c pair amount price = dry_buy c pair limit amount price (literal 75 5)

-- `cost` is the amount of a raw order in the quote currency.
pub record TradeClient : Type 1 where
  pub World : Type 0
  pub create_market_buy_order_with_cost : Pair → Decimal → World → Answer RawOrder × World
  pub create_limit_buy_order : Pair → Decimal → Decimal → World → Answer RawOrder × World
  pub cancel_order : Pair → ℕ → World → Bool × World
  pub fetch_order : Pair → ℕ → World → Answer (RawOrder × Decimal) × World
  pub ask : Pair → World → Result Decimal

abbrev pub error_of : Failure → Error
error_of insufficient_funds = insufficient_balance
error_of _ = exchange_error

module _ (client : TradeClient) (c : Clock) where
  abbrev pub fetched :
      Pair → Answer (RawOrder × Decimal) × client.World → Result Order × client.World
  fetched pair (failed e, w) = (raise other, w)
  fetched pair (answer (raw, cost), w) = (ok (read_order c.now raw pair cost), w)

  -- `get_order`
  unfoldable pub get_order : Pair → ℕ → client.World → Result Order × client.World
  unfolding read_order
  get_order pair id w = fetched pair (client.fetch_order pair id w)

  abbrev pub after_market :
      Pair → Decimal → Answer RawOrder × client.World → Result Order × client.World
  after_market pair amount (failed e, w) = (raise (error_of e), w)
  after_market pair amount (answer raw, w) =
      poll_until_settled (get_order pair (read_order c.now raw pair amount).order_id) 15
        (read_order c.now raw pair amount) w

  -- `place_market_buy`
  unfoldable pub buy_market : Bool → Pair → Decimal → client.World → Result Order × client.World
  unfolding poll_until_settled get_order read_order dry_market_buy
  buy_market dry_run pair amount w =
      if dry_run
      then (dry_market_buy c pair amount (client.ask pair w), w)
      else after_market pair amount (client.create_market_buy_order_with_cost pair amount w)

  abbrev pub after_limit :
      Pair → Decimal → Answer RawOrder × client.World → Result Order × client.World
  after_limit pair amount (failed e, w) = (raise (error_of e), w)
  after_limit pair amount (answer raw, w) = (ok (read_order c.now raw pair amount), w)

  -- The live limit buy, for the base amount that the price allows.
  abbrev pub limit_for :
      Pair → Decimal → Decimal → Option Decimal → client.World → Result Order × client.World
  limit_for pair amount price none w = (raise exchange_error, w)
  limit_for pair amount price (some base) w =
      after_limit pair amount (client.create_limit_buy_order pair base price w)

  -- `place_limit_buy`
  unfoldable pub buy_limit :
      Bool → Pair → Decimal → Decimal → client.World → Result Order × client.World
  unfolding read_order dry_limit_buy
  buy_limit dry_run pair amount price w =
      if dry_run
      then (dry_limit_buy c pair amount price, w)
      else limit_for pair amount price (div amount price) w

  abbrev dry_cancelled : Pair → ℕ → Order
  dry_cancelled pair id = record {
    exchange = "binance";
    order_id = id;
    pair = pair;
    side = buy;
    type = limit;
    amount_quote = whole 0;
    amount_base = some (whole 0);
    price_filled_avg = some (whole 0);
    fee_quote = whole 0;
    fee_base = whole 0;
    status = cancelled;
    created_at = c.now;
    filled_at = none;
    amount_quote_aed = none;
  }

  abbrev as_exchange_error : Result Order × client.World → Result Order × client.World
  as_exchange_error (ok o, w) = (ok o, w)
  as_exchange_error (raise e, w) = (raise exchange_error, w)

  abbrev after_cancel : Pair → ℕ → Bool × client.World → Result Order × client.World
  after_cancel pair id (false, w) = (raise exchange_error, w)
  after_cancel pair id (true, w) = as_exchange_error (get_order pair id w)

  -- `cancel_order`
  unfoldable pub cancel : Bool → Pair → ℕ → client.World → Result Order × client.World
  unfolding get_order
  cancel dry_run pair id w =
      if dry_run
      then (ok (dry_cancelled pair id), w)
      else after_cancel pair id (client.cancel_order pair id w)

-- What ccxt knows of a market: its fees, and its minimums of amount and cost.
pub record MarketInfo : Type 0 where
  pub maker : Option Decimal
  pub taker : Option Decimal
  pub amount_min : Option Decimal
  pub cost_min : Option Decimal

abbrev or_tenth_percent : Option Decimal → Decimal
or_tenth_percent none = literal 1 3
or_tenth_percent (some d) = d

-- `get_fee_schedule`
unfoldable pub fee_schedule : MarketInfo → Pair → FeeSchedule
fee_schedule m pair = record {
  exchange = "binance";
  pair = pair;
  maker_pct = or_tenth_percent m.maker;
  taker_pct = or_tenth_percent m.taker;
  withdrawal_fee_btc = literal 2 4;
}

-- `_to_decimal(x) if x else None`
abbrev if_nonzero : Option Decimal → Option Decimal
if_nonzero none = none
if_nonzero (some d) = if nonzero d then some d else none

-- `get_order_minimum`
unfoldable pub order_minimum : MarketInfo → Pair → OrderMinimum
order_minimum m pair = record {
  exchange = "binance";
  pair = pair;
  min_base = if_nonzero m.amount_min;
  min_quote = if_nonzero m.cost_min;
  quote_currency = pair.quote;
}

-- The balance of one asset: its total, and what is free and used.
pub record RawBalance : Type 0 where
  pub asset : String
  pub total : Decimal
  pub free : Option Decimal
  pub used : Option Decimal

abbrev or_nothing : Option Decimal → Decimal
or_nothing none = whole 0
or_nothing (some d) = d

abbrev balance_of_raw : RawBalance → Balance
balance_of_raw b = record {
  exchange = "binance";
  asset = b.asset;
  free = or_nothing b.free;
  used = or_nothing b.used;
  total = b.total;
}

-- `get_balances`
unfoldable pub balances : List RawBalance → List Balance
balances [] = []
balances (b ∷ bs) =
    let rest = balances bs in
    if nonzero b.total && positive b.total then balance_of_raw b ∷ rest else rest
