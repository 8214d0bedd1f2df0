-- ===== src/Bitoasis/Placing.antt =====
-- The placements of src/bitcoiners_dca/exchanges/bitoasis.py, live and dry.
use bitcoiners_dca.Prelude.{
  ℕ, ◌*◌, ◌^◌, Bool, true, false, ◌&&◌, Option, none, some, if◌then◌else◌, str_eq,
}
use bitcoiners_dca.Prelude.Int.{pos, signed, is_neg, magnitude, leb_ℤ, ltb_ℤ}
use bitcoiners_dca.Decimal.{Decimal, whole, literal, mul, div, quotient, round_half_even}
use bitcoiners_dca.Models.{Pair, Order, OrderType, market, limit, buy, filled, positive}
use bitcoiners_dca.Strategy.{Error, insufficient_balance, exchange_error, other, Result, ok, raise}
use bitcoiners_dca.Exchange.{poll_until_settled}
use bitcoiners_dca.Bitoasis.{BitOrder, Reply, no_answer, answered, Refusal, refusal_for, read_order}

-- `Decimal("0.00000001")`, in units.
abbrev satoshi : ℕ
satoshi = 10 ^ 52

-- `quantize(Decimal("0.00000001"))`
unfoldable pub to_satoshi : Decimal → Decimal
unfolding round_half_even
to_satoshi a = signed (is_neg a) (round_half_even (magnitude a) satoshi * satoshi)

-- `BITOASIS_BTC_MIN_BASE`
abbrev pub btc_min_base : Decimal
btc_min_base = literal 48 6

abbrev pub default_taker_pct : Decimal
default_taker_pct = literal 5 3

abbrev pub default_maker_pct : Decimal
default_maker_pct = literal 2 3

-- "insufficient" or "balance" in the exception's text
abbrev pub error_for : Bool → Error
error_for true = insufficient_balance
error_for false = exchange_error

pub record BitClient : Type 1 where
  pub World : Type 0
  pub post_order : Pair → OrderType → Decimal → Option Decimal → World → Reply BitOrder × World
  pub get_order : Pair → ℕ → World → Result Order × World
  pub ask : Pair → World → Result Decimal

abbrev pub is_below_minimum : Pair → Decimal → Bool
is_below_minimum pair base = str_eq pair.base "BTC" && ltb_ℤ base btc_min_base

-- The made-up order of a dry run.
unfoldable dry_order : ℕ → ℕ → Pair → OrderType → Decimal → Decimal → Decimal → Decimal → Order
dry_order now id pair kind amount base price fee_pct = record {
  exchange = "bitoasis";
  order_id = id;
  pair = pair;
  side = buy;
  type = kind;
  amount_quote = amount;
  amount_base = some base;
  price_filled_avg = some price;
  fee_quote = mul amount fee_pct;
  fee_base = whole 0;
  status = filled;
  created_at = now;
  filled_at = some now;
  amount_quote_aed = none;
}

module _ (client : BitClient) (now : ℕ) where
  -- What `_request` makes of an answer, with the `except` clause of a placement.
  abbrev pub judged : Pair → Decimal → Option Refusal → Bool → Option BitOrder → Result Order
  judged pair amount (some refusal) funds parsed = raise (error_for funds)
  judged pair amount none funds none = raise (error_for funds)
  judged pair amount none funds (some raw) = ok (read_order now raw pair amount)

  abbrev pub placed : Pair → Decimal → Reply BitOrder × client.World → Result Order × client.World
  placed pair amount (no_answer, w) = (raise exchange_error, w)
  placed pair amount (answered code funds parsed, w) =
      (judged pair amount (refusal_for code) funds parsed, w)

  abbrev pub settle_market : Pair → Result Order × client.World → Result Order × client.World
  settle_market pair (raise e, w) = (raise e, w)
  settle_market pair (ok o, w) = poll_until_settled (client.get_order pair o.order_id) 15 o w

  -- The market order for the base amount that the ask allows.
  unfoldable pub post_market :
      Pair → Decimal → Option Decimal → client.World → Result Order × client.World
  unfolding poll_until_settled read_order to_satoshi
  post_market pair amount none w = (raise other, w)
  post_market pair amount (some exact) w =
      let base = to_satoshi exact in
      if is_below_minimum pair base
      then (raise exchange_error, w)
      else settle_market pair (placed pair amount (client.post_order pair market base none w))

  unfoldable pub market_at :
      Pair → Decimal → Result Decimal → client.World → Result Order × client.World
  unfolding post_market
  market_at pair amount (raise e) w = (raise e, w)
  market_at pair amount (ok ask) w =
      if leb_ℤ ask (pos 0)
      then (raise exchange_error, w)
      else post_market pair amount (div amount ask) w

  -- `_dry_run_order`, on the ask
  unfoldable dry_market : ℕ → Pair → Decimal → Result Decimal → Result Order
  unfolding dry_order
  dry_market id pair amount (raise e) = raise e
  dry_market id pair amount (ok ask) =
      let base = if positive ask then quotient amount ask else whole 0 in
      ok (dry_order now id pair market amount base ask default_taker_pct)

  -- `place_market_buy`; `id` is the number of a made-up order.
  unfoldable pub place_market :
      Bool → ℕ → Pair → Decimal → client.World → Result Order × client.World
  unfolding market_at dry_market
  place_market dry_run id pair amount w =
      if dry_run
      then (dry_market id pair amount (client.ask pair w), w)
      else market_at pair amount (client.ask pair w) w

  -- The dry run of a limit buy.
  unfoldable dry_limit : ℕ → Pair → Decimal → Decimal → Option Decimal → Result Order
  unfolding dry_order to_satoshi
  dry_limit id pair amount price none = raise other
  dry_limit id pair amount price (some base) =
      ok (dry_order now id pair limit amount (to_satoshi base) price default_maker_pct)

  -- The limit order for the base amount that the price allows.
  unfoldable pub post_limit :
      Pair → Decimal → Decimal → Option Decimal → client.World → Result Order × client.World
  unfolding read_order to_satoshi
  post_limit pair amount price none w = (raise other, w)
  post_limit pair amount price (some base) w =
      placed pair amount (client.post_order pair limit (to_satoshi base) (some price) w)

  -- `place_limit_buy`
  unfoldable pub place_limit :
      Bool → ℕ → Pair → Decimal → Decimal → client.World → Result Order × client.World
  unfolding post_limit dry_limit
  place_limit dry_run id pair amount price w =
      if dry_run
      then (dry_limit id pair amount price (div amount price), w)
      else post_limit pair amount price (div amount price) w
