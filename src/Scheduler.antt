-- ===== src/Scheduler.antt =====
-- src/bitcoiners_dca/core/scheduler.py: one scheduled cycle, from the risk check to the failure
-- counter, with what `Database.record_cycle` (src/bitcoiners_dca/persistence/db.py) writes. The
-- settings are those after the reload. Whether the cycle lock was acquired is a parameter, and so
-- are the bounds of the local day. Notifications, logs and the timestamps of log rows are left out,
-- and so are the database's own exceptions. The strategy's error texts name an orphan only where
-- its orphan fields are set, so the fallback on the texts is left out.
pub mod Limits
pub mod Pauses
use bitcoiners_dca.Prelude.{
  ℕ, String, Bool, true, false, not, ◌&&◌, Option, none, some, List, [], ◌∷◌, ◌++◌, map, keep,
  if◌then◌else◌, ◌==◌, str_eq,
}
use bitcoiners_dca.Decimal.{Decimal}
use bitcoiners_dca.Models.{Order, nonzero}
use bitcoiners_dca.Router.{SmartRouter}
use bitcoiners_dca.Overlays.{Overlay}
use bitcoiners_dca.Risk.{
  RiskManager, RiskState, RiskDecision, Trade, daily_spend_aed, evaluate, record_cycle_result,
}
use bitcoiners_dca.Strategy.{Result, ok, raise, Venues, StrategyConfig}
use bitcoiners_dca.Strategy.Route.{Orphan}
use bitcoiners_dca.Strategy.Cycle.{ExecutionResult, CycleInput, execute}

-- A row of `trades` with its key.
pub record TradeRow : Type 0 where
  pub exchange : String
  pub order_id : ℕ
  pub trade : Trade

-- A row of `cycle_log`.
pub record CycleRow : Type 0 where
  pub intended_amount_aed : Decimal
  pub success : Bool

-- What the bot keeps in its database.
pub record Bot : Type 0 where
  pub risk : RiskState
  pub trades : List TradeRow
  pub cycle_log : List CycleRow
  pub last_orphan : Option Orphan

abbrev row_for : Order → TradeRow
row_for o = record {
  exchange = o.exchange;
  order_id = o.order_id;
  trade = record {
    side = o.side;
    status = o.status;
    timestamp = o.created_at;
    amount_quote = some o.amount_quote;
    amount_quote_aed = o.amount_quote_aed;
    pair = o.pair;
  };
}

-- Not the same exchange and order id, which are unique in `trades`.
abbrev is_other_row : TradeRow → TradeRow → Bool
is_other_row row r = not (str_eq r.exchange row.exchange && r.order_id == row.order_id)

-- `INSERT OR REPLACE`
unfoldable pub upsert : TradeRow → List TradeRow → List TradeRow
upsert row rows = keep (is_other_row row) rows ++ row ∷ []

abbrev upsert_all : List Order → List TradeRow → List TradeRow
upsert_all [] rows = rows
upsert_all (o ∷ os) rows = upsert_all os (upsert (row_for o) rows)

abbrev pub is_empty {ℓ} : {A : Type ℓ} → List A → Bool
is_empty [] = true
is_empty (x ∷ xs) = false

-- `result.order and not result.errors`
abbrev pub succeeded : ExecutionResult → Bool
succeeded r = not (is_empty r.orders) && is_empty r.errors

-- `Database.record_cycle`
unfoldable pub record_cycle : ExecutionResult → Bot → Bot
unfolding upsert
record_cycle r b = record b {
  cycle_log =
      b.cycle_log
      ++ record { intended_amount_aed = r.intended_amount_aed; success = succeeded r } ∷ [];
  trades = upsert_all r.orders b.trades;
}

abbrev orphan_or : Option Orphan → Option Orphan → Option Orphan
orphan_or none old = old
orphan_or (some o) old = if nonzero o.amount then some o else old

-- `_record_orphan_if_any`
unfoldable pub record_orphan : ExecutionResult → Bot → Bot
record_orphan r b = record b { last_orphan = orphan_or r.orphan b.last_orphan }

-- The three outcomes of a cycle that returned: success, deliberate skip, failure.
unfoldable pub count_result : RiskManager → ExecutionResult → RiskState → RiskState
count_result rm r s =
    if succeeded r
    then record_cycle_result rm true s
    else if r.deliberate_skip && is_empty r.errors
    then s
    else record_cycle_result rm false s

-- The synthetic result of a cycle that raised.
abbrev failed_with : Decimal → Bot → Bot
failed_with amount b = record b {
  cycle_log = b.cycle_log ++ record { intended_amount_aed = amount; success = false } ∷ [];
}

unfoldable pub spent_today : ℕ → ℕ → Bot → Decimal
unfolding daily_spend_aed
spent_today start end b = daily_spend_aed start end (map (λ (r : TradeRow). r.trade) b.trades)

module _ (v : Venues) (upper : String → String) (cfg : StrategyConfig) (router : SmartRouter)
    (overlays : List Overlay) (names : List String) (rm : RiskManager) where
  open v use {World}

  -- The end of a cycle that the risk manager allowed.
  abbrev close_cycle : Decimal → Bot → Result ExecutionResult × World → Bot × World
  close_cycle amount b (raise e, w) =
      (failed_with amount (record b { risk = record_cycle_result rm false b.risk }), w)
  close_cycle amount b (ok r, w) =
      let logged = record_cycle r b in
      (record_orphan r (record logged { risk = count_result rm r b.risk }), w)

  abbrev on_decision : RiskDecision → CycleInput → Bot → World → Bot × World
  on_decision d input b w =
      if d.allow
      then close_cycle d.amount_aed b (execute v upper cfg router overlays names input d.cap_aed w)
      else (b, w)

  -- `_run_dca_cycle_inner`
  unfoldable pub run_dca_cycle_inner : ℕ → ℕ → CycleInput → Bot → World → Bot × World
  unfolding evaluate execute record_cycle record_orphan count_result spent_today
  run_dca_cycle_inner start end input b w =
      on_decision (evaluate rm b.risk (spent_today start end b) cfg.base_amount_aed) input b w

  -- `_run_dca_cycle`
  unfoldable pub run_dca_cycle : Bool → ℕ → ℕ → CycleInput → Bot → World → Bot × World
  unfolding run_dca_cycle_inner
  run_dca_cycle acquired start end input b w =
      if acquired then run_dca_cycle_inner start end input b w else (b, w)
