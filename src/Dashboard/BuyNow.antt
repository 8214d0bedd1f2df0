-- ===== src/Dashboard/BuyNow.antt =====
-- `controls_buy_now` of src/bitcoiners_dca/web/dashboard.py: the guards of the button, and its
-- background task. `_buy_once` is a parameter, of which only the end matters here. The button's
-- last error is left out, and so is where the browser is sent.
pub mod InFlight
use bitcoiners_dca.Prelude.{ℕ, ◌+◌, ◌*◌, String, Bool, true, false, ltb, if◌then◌else◌}
use bitcoiners_dca.Risk.{RiskManager, RiskState, evaluate}
use bitcoiners_dca.Decimal.{Decimal}
use bitcoiners_dca.Persistence.{
  Lock, cycle_lock_ttl_seconds, try_acquire_cycle_lock, release_cycle_lock,
}

-- The marker `buy_now.started_at`: "" or absent, a text that is no time, or a time.
pub data Marker : Type 0 where
  clear malformed : Marker
  since : ℕ → Marker

pub record Button : Type 0 where
  pub started_at : Marker
  pub lock : Lock

-- `started` is the answer after which the background task runs.
pub data Click : Type 0 where
  blocked in_flight busy started : Click

-- `INFLIGHT_TIMEOUT_SECS`
abbrev pub inflight_timeout_secs : ℕ
inflight_timeout_secs = 15 * 60

abbrev pub is_in_flight : ℕ → Marker → Bool
is_in_flight now clear = false
is_in_flight now malformed = false
is_in_flight now (since t) = ltb now (t + inflight_timeout_secs)

abbrev pub locked : ℕ → Marker → Bool × Lock → Click × Button
locked now marker (false, lock) = (busy, record { started_at = marker; lock = lock })
locked now marker (true, lock) = (started, record { started_at = since now; lock = lock })

abbrev pub take_off : String → ℕ → Button → Click × Button
take_off me now b =
    locked now b.started_at (try_acquire_cycle_lock cycle_lock_ttl_seconds me now b.lock)

-- `controls_buy_now` of the process `me`, whose reads and writes come at one time.
unfoldable pub controls_buy_now :
    RiskManager → RiskState → Decimal → Decimal → String → ℕ → Button → Click × Button
unfolding evaluate try_acquire_cycle_lock
controls_buy_now rm risk spent amount me now b =
    if (evaluate rm risk spent amount).allow
    then (if is_in_flight now b.started_at then (in_flight, b) else take_off me now b)
    else (blocked, b)

-- `_run_buy_once_and_log`: whether or not `_buy_once` raises, the task's `finally` is run.
unfoldable pub run_buy_once_and_log : {W : Type 0} → String → (W → W) → Button × W → Button × W
unfolding release_cycle_lock
run_buy_once_and_log me buy_once (b, w) =
    (record { started_at = clear; lock = release_cycle_lock me b.lock }, buy_once w)

-- A click with all that it reads.
pub record Attempt : Type 0 where
  pub rm : RiskManager
  pub risk : RiskState
  pub spent : Decimal
  pub amount : Decimal
  pub me : String
  pub now : ℕ

abbrev pub click : Attempt → Button → Click × Button
click a b = controls_buy_now a.rm a.risk a.spent a.amount a.me a.now b
