-- ===== src/Models.antt =====
-- src/bitcoiners_dca/core/models.py: the exchange-agnostic data. Instants are whole seconds, which
-- the modelled code only carries. A canonical pair "BASE/QUOTE" is its two halves, as `split("/")`
-- gives them.
use bitcoiners_dca.Prelude.{
  ℕ, String, Bool, not, ◌&&◌, Option, none, some, if◌then◌else◌, ◌>>=◌, ◌==◌, str_eq,
}
use bitcoiners_dca.Prelude.Int.{pos, ltb_ℤ, magnitude}
use bitcoiners_dca.Decimal.{Decimal, whole, add, sub, mul, div}

pub record Pair : Type 0 where
  pub base : String
  pub quote : String

unfoldable pub same_pair : Pair → Pair → Bool
same_pair p q = str_eq p.base q.base && str_eq p.quote q.quote

pub record Ticker : Type 0 where
  pub exchange : String
  pub pair : Pair
  pub bid : Decimal
  pub ask : Decimal
  pub last : Decimal
  pub mid : Decimal
  pub spread_pct : Decimal
  pub timestamp : ℕ

pub record Balance : Type 0 where
  pub exchange : String
  pub asset : String
  pub free : Decimal
  pub used : Decimal
  pub total : Decimal

pub data OrderType : Type 0 where
  market limit : OrderType

pub data OrderSide : Type 0 where
  buy sell : OrderSide

pub data OrderStatus : Type 0 where
  pending partial filled cancelled rejected : OrderStatus

pub record Order : Type 0 where
  pub exchange : String
  pub order_id : ℕ
  pub pair : Pair
  pub side : OrderSide
  pub type : OrderType
  pub amount_quote : Decimal
  pub amount_base : Option Decimal
  pub price_filled_avg : Option Decimal
  pub fee_quote : Decimal
  pub fee_base : Decimal
  pub status : OrderStatus
  pub created_at : ℕ
  pub filled_at : Option ℕ
  pub amount_quote_aed : Option Decimal

pub record FeeSchedule : Type 0 where
  pub exchange : String
  pub pair : Pair
  pub maker_pct : Decimal
  pub taker_pct : Decimal
  pub withdrawal_fee_btc : Decimal

pub record OrderMinimum : Type 0 where
  pub exchange : String
  pub pair : Pair
  pub min_base : Option Decimal
  pub min_quote : Option Decimal
  pub quote_currency : String

-- A decimal that Python takes for true: it is not zero.
abbrev pub nonzero : Decimal → Bool
nonzero d = not (magnitude d == 0)

abbrev pub positive : Decimal → Bool
positive d = ltb_ℤ (pos 0) d

-- `x or y`, for an optional decimal x.
abbrev pub or_else : Option Decimal → Decimal → Decimal
or_else none y = y
or_else (some x) y = if nonzero x then x else y

-- `Ticker.from_prices`
unfoldable pub from_prices : String → Pair → Decimal → Decimal → Option Decimal → ℕ → Option Ticker
from_prices exchange pair bid ask last ts = do
  mid ← div (add bid ask) (whole 2)
  spread_pct ←
      if positive mid
      then (div (sub ask bid) mid >>= λ s. some (mul s (whole 100)))
      else some (whole 0)
  some (record {
    exchange = exchange;
    pair = pair;
    bid = bid;
    ask = ask;
    last = or_else last mid;
    mid = mid;
    spread_pct = spread_pct;
    timestamp = ts;
  })

-- The second test of `effective_fee_quote`, on the average fill price.
unfoldable pub base_fee_in_quote : Decimal → Option Decimal → Decimal
base_fee_in_quote fee none = whole 0
base_fee_in_quote fee (some price) =
    if nonzero fee && positive price then mul fee price else whole 0

-- `Order.effective_fee_quote`
unfoldable pub effective_fee_quote : Order → Decimal
unfolding base_fee_in_quote
effective_fee_quote o =
    if nonzero o.fee_quote then o.fee_quote else base_fee_in_quote o.fee_base o.price_filled_avg
