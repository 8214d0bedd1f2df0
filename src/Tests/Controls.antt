-- ===== src/Tests/Controls.antt =====
-- The dashboard's controls, its table of trades, the reload, and placements on Binance.
use mathlib.Core.List.{reverse}
use bitcoiners_dca.Prelude.{
  ◌⊎◌, ℕ, ◌+◌, ◌≡◌, refl, Bool, true, false, Option, none, some, String, List, [], ◌∷◌, map, Any,
}
use bitcoiners_dca.Prelude.Int.{pos}
use bitcoiners_dca.Prelude.Sort.{sort}
use bitcoiners_dca.Decimal.{whole}
use bitcoiners_dca.Strategy.{ok}
use bitcoiners_dca.Dashboard.GoLive.{
  Panel, PanelRequest, toggle, test_connection, credentials, go_live, settings_save, handle_all,
  Plan,
}
use bitcoiners_dca.Dashboard.GoLive.Gate.{TurnsLive, handle_all-TurnsLive}
use bitcoiners_dca.Dashboard.TradeLog.{Leg, Group, not_later, decorate_trades, close_group}
use bitcoiners_dca.Dashboard.TradeLog.Groups.{IsSplit, decorate_trades-IsSplit}
use bitcoiners_dca.Reload.{
  Cadence, FundingConfig, Settings, Fresh, Daemon, install_jobs, reload_all,
}
use bitcoiners_dca.Reload.Jobs.{IsNew, Steady, Armed, is_lost, reload_all-Follows}
use bitcoiners_dca.Okx.{answer}
use bitcoiners_dca.Binance.{TradeClient}
use bitcoiners_dca.Binance.Placement.{Counting}
use bitcoiners_dca.Tests.Venue.{btc_aed}
use bitcoiners_dca.Tests.Caps.{caps}
use bitcoiners_dca.Tests.Placement.{raw_order}

abbrev new_panel : Panel
new_panel = record {
  dry_run = true;
  enabled = λ n. false;
  has_credentials = λ n. false;
  tested = [];
}

abbrev requests : List PanelRequest
requests = toggle "okx" true ∷ credentials "okx" ∷ test_connection "okx" true 5 ∷ go_live ∷ []

handle_all-TurnsLive_example : Any TurnsLive requests
unfolding handle_all
handle_all-TurnsLive_example = handle_all-TurnsLive requests new_panel refl refl refl

-- The settings form turns trading on without a test.
ungated : (handle_all (settings_save false ∷ []) new_panel).dry_run ≡ false
unfolding handle_all
ungated = refl

abbrev plan : Plan
plan = record { amount_aed = whole 100; max_daily_aed = none; max_single_buy_aed = none }

abbrev leg_at : ℕ → String → Leg
leg_at t id = record {
  timestamp = t;
  exchange = "okx";
  pair = btc_aed;
  amount_quote = some (whole 100);
  amount_base = some (whole 1);
  status = "filled";
  order_id = id;
}

abbrev shown : List Leg
shown = leg_at 30_000_000 "c" ∷ leg_at 1_000_000 "a" ∷ leg_at 2_000_000 "b" ∷ []

abbrev first_text : List String → String
first_text [] = ""
first_text (s ∷ ss) = s

decorate_trades-IsSplit_example :
    (gs : List Group) × (decorate_trades first_text shown
      ≡ reverse (map (close_group first_text) gs))
    × IsSplit (sort not_later shown) gs
decorate_trades-IsSplit_example = decorate_trades-IsSplit first_text shown

abbrev weekly : Cadence
weekly = record {
  frequency = "weekly";
  every_n_hours = pos 1;
  day_of_week = "monday";
  time = "09:00";
  timezone = "";
}

abbrev no_funding : FundingConfig
no_funding = record {
  enabled = false;
  poll_interval_seconds = 3600;
  alert_threshold_pct = whole 15;
  alert_negative_threshold_pct = whole 10;
  alert_cooldown_hours = 24;
  instruments = [];
}

abbrev settings : Settings
settings = record {
  cadence = weekly;
  funding = no_funding;
  caps = record {
    max_daily_aed = some (whole 1000);
    max_single_buy_aed = some (whole 400);
    max_consecutive_failures = 2;
  };
  arbitrage_enabled = true;
  arbitrage_interval = 300;
}

abbrev funded : Settings
funded = record settings { funding = record no_funding { enabled = true } }

-- Nothing is found equal, so every section is taken over.
abbrev never_c : Cadence → Cadence → Bool
never_c c d = false

abbrev never_f : FundingConfig → FundingConfig → Bool
never_f f g = false

abbrev as_trigger : Cadence → Option Cadence
as_trigger c = some c

abbrev new_daemon : Daemon Cadence
new_daemon = record {
  config = settings;
  exchanges = 1 ∷ 2 ∷ [];
  closed = [];
  risk = caps;
  risk_timezone = "Asia/Dubai";
  funding_monitor = none;
  dca_job = none;
  arbitrage_job = none;
  health_job = none;
  funding_job = none;
}

new_daemon-IsNew : IsNew new_daemon
new_daemon-IsNew = record {
  monitor = refl;
  daily = refl;
  single = refl;
  failures = refl;
  timezone = refl;
  hooked = refl;
}

never_c-eq : (c d : Cadence) → never_c c d ≡ true → c ≡ d
never_c-eq c d h = absurd (cc)

never_f-eq : (f g : FundingConfig) → never_f f g ≡ true → f ≡ g
never_f-eq f g h = absurd (cc)

abbrev started_daemon : Daemon Cadence
started_daemon = record new_daemon {
  dca_job = some weekly;
  arbitrage_job = some 300;
  health_job = some 300;
  funding_job = none;
}

installed : install_jobs never_c never_f as_trigger new_daemon ≡ some started_daemon
unfolding install_jobs
installed = refl

-- A rebuild that fails, one with the funding monitor, and one whose cron job cannot be updated.
abbrev rebuilds : List ((Bool × Bool) × Option Fresh)
rebuilds =
    ((true, true), none)
    ∷ ((true, true), some (record { config = funded; exchanges = 3 ∷ [] }))
    ∷ ((true, false), some (record { config = settings; exchanges = 4 ∷ [] }))
    ∷ []

reload_all-Follows_example :
    Steady (reload_all never_c never_f as_trigger rebuilds started_daemon)
    × (Any (λ r. is_lost as_trigger r ≡ true) rebuilds
        ⊎ Armed as_trigger (reload_all never_c never_f as_trigger rebuilds started_daemon))
reload_all-Follows_example =
    reload_all-Follows never_c never_f as_trigger never_c-eq never_f-eq new_daemon started_daemon
      rebuilds new_daemon-IsNew installed

-- The world is the number of orders.
abbrev binance_trades : TradeClient
binance_trades = record {
  World = ℕ;
  create_market_buy_order_with_cost = λ p a w. (answer raw_order, w + 1);
  create_limit_buy_order = λ p a b w. (answer raw_order, w + 1);
  cancel_order = λ p n w. (true, w);
  fetch_order = λ p n w. (answer (raw_order, whole 100), w);
  ask = λ p w. ok (whole 400_000);
}

binance_trades-Counting : Counting binance_trades (λ n. n)
binance_trades-Counting = record {
  market_lands = λ p a w. refl;
  limit_lands = λ p a b w. refl;
  fetch_keeps = λ p n w. refl;
}
