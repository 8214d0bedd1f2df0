-- ===== src/Tests/Venue.antt =====
-- A venue that fills market orders at once, and on which a limit order rests until it is cancelled.
use bitcoiners_dca.Prelude.{ℕ, ◌+◌, refl, Option, none, some, [], arith}
use bitcoiners_dca.Prelude.Int.{pos_part}
use bitcoiners_dca.Decimal.{Decimal, whole, literal}
use bitcoiners_dca.Models.{
  Pair, Ticker, Order, OrderStatus, pending, filled, cancelled, buy, market,
}
use bitcoiners_dca.Routing.{TradeHop}
use bitcoiners_dca.Router.Market.{Feed, pair_of}
use bitcoiners_dca.Strategy.{exchange_error, ok, raise, Venues, StrategyConfig, ExecutionMode, bid}
use bitcoiners_dca.Strategy.Exposure.{Promises}

-- What is spent, and what the resting order can still spend.
pub record Books : Type 0 where
  pub spent : ℕ
  pub resting : ℕ

abbrev pub btc_aed : Pair
btc_aed = pair_of "BTC" "AED"

abbrev pub order_for : Pair → Decimal → OrderStatus → Option Decimal → Order
order_for p amount status base = record {
  exchange = "okx";
  order_id = 0;
  pair = p;
  side = buy;
  type = market;
  amount_quote = amount;
  amount_base = base;
  price_filled_avg = none;
  fee_quote = whole 0;
  fee_base = whole 0;
  status = status;
  created_at = 0;
  filled_at = none;
  amount_quote_aed = none;
}

abbrev pub ticker_for : Pair → Ticker
ticker_for p = record {
  exchange = "okx";
  pair = p;
  bid = whole 399_000;
  ask = whole 400_000;
  last = whole 400_000;
  mid = whole 399_500;
  spread_pct = literal 25 2;
  timestamp = 0;
}

abbrev pub okx_feed : Feed
okx_feed = record {
  name = "okx";
  get_ticker = λ p. some (ticker_for p);
  get_fee_schedule = λ p. none;
  get_balance = λ c. some none;
  get_balance_again = λ c. none;
  get_order_minimum = λ p. none;
}

abbrev pub paper : Venues
paper = record {
  World = Books;
  place_market_buy = λ name p a w.
      (ok (order_for p a filled (some (whole 1))), record w { spent = w.spent + pos_part a });
  place_limit_buy = λ name p a price w. (
    ok (order_for p a pending none),
    record { spent = w.spent + w.resting; resting = pos_part a },
  );
  wait_for_fill = λ name p id timeout w. (ok (order_for p (whole 0) pending none), w);
  cancel_order =
      λ name p id w. (ok (order_for p (whole 0) cancelled none), record w { resting = 0 });
  get_order = λ name p id w. (raise exchange_error, w);
  cancel_all_open_orders = λ name p w. (ok 0, w);
  get_balances = λ name w. (ok [], w);
  feed = λ name w. okx_feed;
}

abbrev pub paper_promises : Promises paper
paper_promises = record {
  exposure = λ w. w.spent + w.resting;
  owed = λ w name id. w.resting;
  market_law = λ name p a w. omega arith;
  limit_law = λ name p a price w. (omega arith, omega arith);
  wait_law = λ name p id timeout w. (omega arith, refl);
  cancel_law = λ name p id w. (omega arith, λ dead none_filled. omega arith);
  get_law = λ name p id w. omega arith;
}

abbrev pub empty_books : Books
empty_books = record { spent = 0; resting = 0 }

abbrev pub settings : ExecutionMode → StrategyConfig
settings mode = record {
  base_amount_aed = whole 500;
  pair = btc_aed;
  execution_mode = mode;
  maker_limit_at = bid;
  maker_spread_bps_below_market = whole 5;
  maker_timeout_seconds = 60;
  max_pct_of_balance = whole 1;
}

abbrev pub hop_on : Pair → TradeHop
hop_on p = record {
  exchange = "okx";
  pair = p;
  side = buy;
  price = whole 400_000;
  taker_pct = literal 5 3;
}
