-- ===== src/Strategy.antt =====
-- src/bitcoiners_dca/core/strategy.py: the settings, the exchanges as the strategy calls them, and
-- the execution of one hop. An adapter is known by `exchanges/base.py` alone: its calls are the
-- fields of `Venues`, each of which may change the world and may raise. Reads of market data leave
-- the world alone. The texts of notes and errors are left out.
pub mod Budget
pub mod Balances
pub mod Exposure
pub mod Route
pub mod Sizing
pub mod Cycle
use bitcoiners_dca.Prelude.{ℕ, String, Bool, true, false, Option, none, some, List, if◌then◌else◌}
use bitcoiners_dca.Decimal.{Decimal, whole, literal, sub, mul, quotient}
use bitcoiners_dca.Models.{
  Pair, Balance, Order, OrderStatus, partial, filled, cancelled, rejected, positive,
}
use bitcoiners_dca.Routing.{TradeHop}
use bitcoiners_dca.Router.Market.{Feed}

-- The exceptions that the strategy tells apart; `insufficient_balance` is an `exchange_error` too.
pub data Error : Type 0 where
  insufficient_balance exchange_error not_implemented other : Error

pub data Result {ℓ} (A : Type ℓ) : Type ℓ where
  ok : A → Result A
  raise : Error → Result A

pub record Venues : Type 1 where
  pub World : Type 0
  pub place_market_buy : String → Pair → Decimal → World → Result Order × World
  pub place_limit_buy : String → Pair → Decimal → Decimal → World → Result Order × World
  pub wait_for_fill : String → Pair → ℕ → ℕ → World → Result Order × World
  pub cancel_order : String → Pair → ℕ → World → Result Order × World
  pub get_order : String → Pair → ℕ → World → Result Order × World
  pub cancel_all_open_orders : String → Pair → World → Result ℕ × World
  pub get_balances : String → World → Result (List Balance) × World
  pub feed : String → World → Feed

pub data ExecutionMode : Type 0 where
  taker maker_only maker_fallback : ExecutionMode

-- `unknown` is any other text.
pub data LimitAt : Type 0 where
  bid midpoint ask_minus_bps unknown : LimitAt

pub record StrategyConfig : Type 0 where
  pub base_amount_aed : Decimal
  pub pair : Pair
  pub execution_mode : ExecutionMode
  pub maker_limit_at : LimitAt
  pub maker_spread_bps_below_market : Decimal
  pub maker_timeout_seconds : ℕ
  pub max_pct_of_balance : Decimal

abbrev pub is_filled : OrderStatus → Bool
is_filled filled = true
is_filled _ = false

abbrev pub is_partial : OrderStatus → Bool
is_partial partial = true
is_partial _ = false

-- Cancelled or rejected: the order can fill no more.
abbrev pub is_dead : OrderStatus → Bool
is_dead cancelled = true
is_dead rejected = true
is_dead _ = false

abbrev pub base_of : Option Decimal → Decimal
base_of none = whole 0
base_of (some b) = b

abbrev limit_for : LimitAt → Decimal → Decimal → Result Decimal
limit_for bid ask bps = ok (mul ask (sub (whole 1) (literal 5 4)))
limit_for midpoint ask bps = ok (mul ask (sub (whole 1) (literal 25 5)))
limit_for ask_minus_bps ask bps = ok (mul ask (sub (whole 1) (quotient bps (whole 10_000))))
limit_for unknown ask bps = raise other

-- `DCAStrategy._compute_limit_price`
unfoldable pub compute_limit_price : StrategyConfig → TradeHop → Result Decimal
compute_limit_price cfg hop =
    limit_for cfg.maker_limit_at hop.price cfg.maker_spread_bps_below_market

module _ (v : Venues) where
  open v use {World}

  -- What is known of a limit order after the attempt to cancel it, and whether the cancellation
  -- confirmed it.
  abbrev refetched : Order → Result Order × World → (Order × Bool) × World
  refetched last (ok o, w) = ((o, false), w)
  refetched last (raise e, w) = ((last, false), w)

  abbrev after_cancel : String → Pair → ℕ → Order → Result Order × World → (Order × Bool) × World
  after_cancel name pair id last (ok o, w) = ((o, true), w)
  after_cancel name pair id last (raise e, w) = refetched last (v.get_order name pair id w)

  unfoldable pub settle : String → Pair → ℕ → Order → World → (Order × Bool) × World
  settle name pair id last w = after_cancel name pair id last (v.cancel_order name pair id w)

  abbrev some_order : Result Order × World → Result (Option Order) × World
  some_order (ok o, w) = (ok (some o), w)
  some_order (raise e, w) = (raise e, w)

  abbrev when_unfilled :
      ExecutionMode → TradeHop → Decimal → Order → Bool → World → Result (Option Order) × World
  when_unfilled maker_fallback hop amount settled true w =
      if is_dead settled.status
      then some_order (v.place_market_buy hop.exchange hop.pair amount w)
      else (ok none, w)
  when_unfilled _ hop amount settled confirmed w = (ok none, w)

  -- The decision on the state after the cancellation.
  unfoldable pub decide :
      ExecutionMode → TradeHop → Decimal → (Order × Bool) × World → Result (Option Order) × World
  decide mode hop amount ((settled, confirmed), w) =
      if is_filled settled.status
      then (ok (some settled), w)
      else if positive (base_of settled.amount_base)
      then (ok (some (record settled { status = partial })), w)
      else when_unfilled mode hop amount settled confirmed w

  abbrev after_wait :
      StrategyConfig → TradeHop → Decimal → ℕ → Result Order × World → Result (Option Order) × World
  after_wait cfg hop amount id (raise e, w) = (raise e, w)
  after_wait cfg hop amount id (ok last, w) =
      if is_filled last.status
      then (ok (some last), w)
      else decide cfg.execution_mode hop amount (settle hop.exchange hop.pair id last w)

  -- From the placed limit order on.
  unfoldable pub follow_limit :
      StrategyConfig → TradeHop → Decimal → Order → World → Result (Option Order) × World
  unfolding settle decide
  follow_limit cfg hop amount placed w =
      if is_filled placed.status
      then (ok (some placed), w)
      else after_wait cfg hop amount placed.order_id
          (v.wait_for_fill hop.exchange hop.pair placed.order_id cfg.maker_timeout_seconds w)

  abbrev after_placing :
      StrategyConfig → TradeHop → Decimal → Result Order × World → Result (Option Order) × World
  after_placing cfg hop amount (raise e, w) = (raise e, w)
  after_placing cfg hop amount (ok placed, w) = follow_limit cfg hop amount placed w

  abbrev place_limit :
      StrategyConfig → TradeHop → Decimal → Result Decimal → World → Result (Option Order) × World
  place_limit cfg hop amount (raise e) w = (raise e, w)
  place_limit cfg hop amount (ok price) w =
      after_placing cfg hop amount (v.place_limit_buy hop.exchange hop.pair amount price w)

  abbrev in_mode :
      ExecutionMode → StrategyConfig → TradeHop → Decimal → World → Result (Option Order) × World
  in_mode taker cfg hop amount w = some_order (v.place_market_buy hop.exchange hop.pair amount w)
  in_mode _ cfg hop amount w = place_limit cfg hop amount (compute_limit_price cfg hop) w

  -- `DCAStrategy._execute_hop`: `none` is the maker order that did not fill.
  unfoldable pub execute_hop :
      StrategyConfig → TradeHop → Decimal → World → Result (Option Order) × World
  unfolding compute_limit_price follow_limit
  execute_hop cfg hop amount w = in_mode cfg.execution_mode cfg hop amount w
