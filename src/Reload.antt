-- ===== src/Reload.antt =====
-- `_reload_if_changed` of src/bitcoiners_dca/core/scheduler.py and the jobs that it keeps up to
-- date. Exchange clients are known by their identity, configurations by what the reload compares
-- and uses, and the dependencies that are only swapped are left out. A job is known by its trigger.
pub mod Jobs
use bitcoiners_dca.Prelude.{
  ℕ, suc, String, Bool, true, false, not, ◌&&◌, ◌||◌, Option, none, some, List, [], ◌∷◌, ◌++◌, any,
  keep, leb, if◌then◌else◌, ◌==◌, str_eq,
}
use bitcoiners_dca.Prelude.Int.{ℤ}
use bitcoiners_dca.Decimal.{Decimal}
use bitcoiners_dca.Risk.{RiskManager}

-- The fields of `strategy` that the cron trigger depends on.
pub record Cadence : Type 0 where
  pub frequency : String
  pub every_n_hours : ℤ
  pub day_of_week : String
  pub time : String
  pub timezone : String

pub record FundingConfig : Type 0 where
  pub enabled : Bool
  pub poll_interval_seconds : ℕ
  pub alert_threshold_pct : Decimal
  pub alert_negative_threshold_pct : Decimal
  pub alert_cooldown_hours : ℕ
  pub instruments : List (String × String)

pub record Caps : Type 0 where
  pub max_daily_aed : Option Decimal
  pub max_single_buy_aed : Option Decimal
  pub max_consecutive_failures : ℕ

pub record Settings : Type 0 where
  pub cadence : Cadence
  pub funding : FundingConfig
  pub caps : Caps
  pub arbitrage_enabled : Bool
  pub arbitrage_interval : ℕ

-- What a rebuild gives: the settings and the clients.
pub record Fresh : Type 0 where
  pub config : Settings
  pub exchanges : List ℕ

-- The scheduler. `Trigger` is what the cron builder makes of a cadence.
pub record Daemon (Trigger : Type 0) : Type 0 where
  pub config : Settings
  pub exchanges : List ℕ
  pub closed : List ℕ
  pub risk : RiskManager
  pub risk_timezone : String
  pub funding_monitor : Option FundingConfig
  pub dca_job : Option Trigger
  pub arbitrage_job : Option ℕ
  pub health_job : Option ℕ
  pub funding_job : Option ℕ

-- `_build_funding_monitor`
abbrev pub build_funding_monitor : Settings → Option FundingConfig
build_funding_monitor s = if s.funding.enabled then some s.funding else none

abbrev pub or_dubai : String → String
or_dubai tz = if str_eq tz "" then "Asia/Dubai" else tz

-- The interval of the funding job that belongs to a monitor.
abbrev pub funding_trigger : Option FundingConfig → Option ℕ
funding_trigger none = none
funding_trigger (some f) = some f.poll_interval_seconds

abbrev pub is_client : ℕ → List ℕ → Bool
is_client n = any (λ m. n == m)

-- The clients that are closed: those that the fresh ones do not hold.
abbrev pub replaced : List ℕ → List ℕ → List ℕ
replaced fresh = keep (λ n. not (is_client n fresh))

-- The tests of the reload are Python's `==` on the sections.
module _ {Trigger : Type 0} (same_cadence : Cadence → Cadence → Bool)
    (same_funding : FundingConfig → FundingConfig → Bool)
    (build_cron : Cadence → Option Trigger) where
  abbrev set_caps : Settings → RiskManager → RiskManager
  set_caps s rm = record rm {
    max_daily_aed = s.caps.max_daily_aed;
    max_single_buy_aed = s.caps.max_single_buy_aed;
    max_consecutive_failures = s.caps.max_consecutive_failures;
  }

  -- The update of the funding job; `ok` says that the scheduler's calls did not raise.
  abbrev pub update_funding : Bool → Settings → Daemon Trigger → Daemon Trigger
  update_funding ok fresh d = if same_funding d.config.funding fresh.funding then d else record d {
    funding_monitor = build_funding_monitor fresh;
    funding_job = if ok then funding_trigger (build_funding_monitor fresh) else d.funding_job;
  }

  abbrev pub rescheduled : Option Trigger → Option Trigger → Option Trigger
  rescheduled old none = old
  rescheduled old (some trigger) = some trigger

  abbrev pub update_cron : Bool → Settings → Daemon Trigger → Daemon Trigger
  update_cron ok fresh d = if same_cadence d.config.cadence fresh.cadence then d else record d {
    dca_job = if ok then rescheduled d.dca_job (build_cron fresh.cadence) else d.dca_job;
  }

  abbrev pub swap : Fresh → Daemon Trigger → Daemon Trigger
  swap f d = record d {
    config = f.config;
    exchanges = f.exchanges;
    closed = replaced f.exchanges d.exchanges ++ d.closed;
    risk = set_caps f.config d.risk;
    risk_timezone = or_dubai f.config.cadence.timezone;
  }

  -- `_reload_if_changed`, with whether the update of the funding job and that of the cron job went
  -- without an exception of the scheduler; `none` is a rebuild that failed or that the scheduler
  -- does not have.
  unfoldable pub reload_if_changed : Bool × Bool → Option Fresh → Daemon Trigger → Daemon Trigger
  reload_if_changed ok none d = d
  reload_if_changed ok (some f) d =
      swap f (update_cron ok.1 f.config (update_funding ok.0 f.config d))

  abbrev arbitrage_trigger : Settings → List ℕ → Option ℕ
  arbitrage_trigger s [] = none
  arbitrage_trigger s (n ∷ []) = none
  arbitrage_trigger s (n ∷ m ∷ ns) = if s.arbitrage_enabled then some s.arbitrage_interval else none

  -- `_install_jobs`, on a scheduler without jobs; `none` is the exception of the cron builder.
  unfoldable pub install_jobs : Daemon Trigger → Option (Daemon Trigger)
  install_jobs d = elim (build_cron d.config.cadence) [
    | none ↦ none
    | some trigger ↦ some (record d {
      dca_job = some trigger;
      arbitrage_job = arbitrage_trigger d.config d.exchanges;
      health_job = some 300;
      funding_job = funding_trigger d.funding_monitor;
    })
  ]

  -- A series of reloads.
  unfoldable pub reload_all : List ((Bool × Bool) × Option Fresh) → Daemon Trigger → Daemon Trigger
  unfolding reload_if_changed
  reload_all [] d = d
  reload_all ((ok, f) ∷ fs) d = reload_all fs (reload_if_changed ok f d)
