-- ===== src/Risk.antt =====
-- src/bitcoiners_dca/core/risk.py: the pause state, the spend caps and the failure counter. The
-- rows of the `meta` table are a record of their values ("true"/"false", a text, a numeral); the
-- number of calls of the `on_auto_pause` hook is a field beside them. The bounds of the local day
-- are parameters: the time zone database computes them.
pub mod Caps
pub mod Pausing
use bitcoiners_dca.Prelude.{
  ℕ, ◌+◌, String, Bool, true, false, not, ◌&&◌, Option, none, some, List, [], ◌∷◌, if◌then◌else◌,
  leb, ltb, str_eq,
}
use bitcoiners_dca.Prelude.Int.{pos, ltb_ℤ, leb_ℤ}
use bitcoiners_dca.Decimal.{Decimal, whole, add, sub, min_of}
use bitcoiners_dca.Models.{
  Pair, OrderSide, buy, sell, OrderStatus, partial, filled, positive, nonzero,
}

-- A reason text, by its origin: a manual pause, or N consecutive failed cycles.
pub data PauseReason : Type 0 where
  manual : String → PauseReason
  consecutive_failed_cycles : ℕ → PauseReason

pub record RiskState : Type 0 where
  pub paused : Bool
  pub paused_reason : Option PauseReason
  pub consecutive_failures : ℕ
  pub alerts : ℕ

pub record RiskManager : Type 0 where
  pub max_daily_aed : Option Decimal
  pub max_single_buy_aed : Option Decimal
  pub max_consecutive_failures : ℕ
  pub has_hook : Bool

pub record RiskDecision : Type 0 where
  pub allow : Bool
  pub amount_aed : Decimal
  pub cap_aed : Option Decimal
  pub paused : Bool

-- A row of the `trades` table, as far as the daily spend reads it.
pub record Trade : Type 0 where
  pub side : OrderSide
  pub status : OrderStatus
  pub timestamp : ℕ
  pub amount_quote : Option Decimal
  pub amount_quote_aed : Option Decimal
  pub pair : Pair

abbrev pub is_buy_side : OrderSide → Bool
is_buy_side buy = true
is_buy_side sell = false

abbrev pub moved_money : OrderStatus → Bool
moved_money filled = true
moved_money partial = true
moved_money _ = false

-- The `WHERE` clause, for the day from `start` up to `end`.
unfoldable pub counts : ℕ → ℕ → Trade → Bool
counts start end t =
    is_buy_side t.side && (moved_money t.status && (leb start t.timestamp && ltb t.timestamp end))

abbrev spend_of : Option Decimal → Option Decimal → Pair → Option Decimal
spend_of (some aed) amount_quote pair = some aed
spend_of none (some q) pair = if str_eq pair.quote "AED" then some q else none
spend_of none none pair = none

-- What a row adds to the total.
unfoldable pub trade_spend : Trade → Option Decimal
trade_spend t = spend_of t.amount_quote_aed t.amount_quote t.pair

abbrev pub add_spend : Bool → Option Decimal → Decimal → Decimal
add_spend true (some d) total = add total d
add_spend _ _ total = total

unfoldable pub daily_spend_from : ℕ → ℕ → Decimal → List Trade → Decimal
unfolding counts trade_spend
daily_spend_from start end total [] = total
daily_spend_from start end total (t ∷ ts) =
    daily_spend_from start end (add_spend (counts start end t) (trade_spend t) total) ts

-- `RiskManager.daily_spend_aed`
unfoldable pub daily_spend_aed : ℕ → ℕ → List Trade → Decimal
unfolding daily_spend_from
daily_spend_aed start end trades = daily_spend_from start end (whole 0) trades

abbrev refused : Bool → RiskDecision
refused paused = record { allow = false; amount_aed = whole 0; cap_aed = none; paused = paused }

abbrev allowed : Decimal → Option Decimal → RiskDecision
allowed amount cap =
    if positive amount
    then record { allow = true; amount_aed = amount; cap_aed = cap; paused = false }
    else refused false

-- `if self.max_single_buy_aed and amount > self.max_single_buy_aed`
abbrev clamp_single : Option Decimal → Decimal → Decimal
clamp_single none amount = amount
clamp_single (some m) amount = if nonzero m && ltb_ℤ m amount then m else amount

abbrev tighter : Option Decimal → Decimal → Decimal
tighter none remaining = remaining
tighter (some c) remaining = min_of c remaining

abbrev within_daily : Decimal → Decimal → Option Decimal → RiskDecision
within_daily remaining amount cap =
    if leb_ℤ remaining (pos 0)
    then refused false
    else allowed (if ltb_ℤ remaining amount then remaining else amount)
        (some (tighter cap remaining))

abbrev clamp_daily : Option Decimal → Decimal → Decimal → Option Decimal → RiskDecision
clamp_daily none spent amount cap = allowed amount cap
clamp_daily (some m) spent amount cap =
    if nonzero m then within_daily (sub m spent) amount cap else allowed amount cap

-- `RiskManager.evaluate`, with today's spend.
unfoldable pub evaluate : RiskManager → RiskState → Decimal → Decimal → RiskDecision
evaluate rm s spent intended =
    if s.paused
    then refused true
    else clamp_daily rm.max_daily_aed spent (clamp_single rm.max_single_buy_aed intended)
        rm.max_single_buy_aed

abbrev is_automatic : PauseReason → Bool
is_automatic (manual text) = false
is_automatic (consecutive_failed_cycles n) = true

-- `RiskManager.pause`: the hook is called on the first transition of an automatic pause.
unfoldable pub pause : RiskManager → PauseReason → RiskState → RiskState
pause rm reason s = record s {
  paused = true;
  paused_reason = some reason;
  alerts = if not s.paused && (rm.has_hook && is_automatic reason) then s.alerts + 1 else s.alerts;
}

-- `RiskManager.resume`
unfoldable pub resume : RiskState → RiskState
resume s = record s { paused = false; paused_reason = none; consecutive_failures = 0 }

-- `RiskManager.record_cycle_result`
unfoldable pub record_cycle_result : RiskManager → Bool → RiskState → RiskState
unfolding pause
record_cycle_result rm true s = record s { consecutive_failures = 0 }
record_cycle_result rm false s =
    let n = s.consecutive_failures + 1 in
    let counted = record s { consecutive_failures = n } in
    if leb rm.max_consecutive_failures n
    then pause rm (consecutive_failed_cycles n) counted
    else counted
