-- ===== src/Tests/Jobs.antt =====
-- Secrets, health checks, a replay and funding alerts on concrete data.
use bitcoiners_dca.Prelude.{
  ℕ, ◌+◌, ◌-◌, ◌*◌, ◌≡◌, refl, String, Bool, true, false, Option, none, some, List, [], ◌∷◌, All,
  keep, ◌>>=◌, length, leb, arith,
}
use bitcoiners_dca.Prelude.Sort.{sort, insert}
use bitcoiners_dca.Prelude.Dict.{lookup, assign}
use bitcoiners_dca.Prelude.Int.{negsuc}
use bitcoiners_dca.Decimal.{whole, unit, literal, mul, add, sub, div}
use bitcoiners_dca.Models.{nonzero}
use bitcoiners_dca.Secrets.{Sealed, SecretStore, get, rotate_key, rotate_rows}
use bitcoiners_dca.Secrets.Rotation.{rotate_key-get}
use bitcoiners_dca.Health.{Health, Firing, streak_of, run_health_checks}
use bitcoiners_dca.Health.Outages.{history, outages_after, count_name, run_health_checks-alerts}
use bitcoiners_dca.Backtest.{
  cycle_on, daily, BacktestConfig, Prices, price_lookup, put_all, put, keys, price_with_fee,
  run_backtest,
}
use bitcoiners_dca.Backtest.Days.{BuysOn, is_buying_day, span, run_backtest-BuysOn}
use bitcoiners_dca.Startup.{Daemon, due_at}
use bitcoiners_dca.Startup.Restarts.{restarts, restarts-once}
use bitcoiners_dca.Funding.{last_alert, FundingReading, FundingMonitor, meta_key, run_checks}
use bitcoiners_dca.Funding.Cooldown.{IsSpaced, times_of, run_checks-IsSpaced}

-- A cipher that keeps its key and the text.
abbrev encrypt : ℕ → ℕ → String → ℕ × String
encrypt key seed text = (key, text)

abbrev decrypt : ℕ → ℕ × String → Option String
decrypt key (k, text) = some text

abbrev store : SecretStore ℕ (ℕ × String)
store = record {
  fernet = 1;
  rows = ("okx.api_key", record { ciphertext = (1, "abc"); updated_at = 5 }) ∷ [];
  committed = [];
}

abbrev rotated : SecretStore ℕ (ℕ × String)
rotated = (rotate_key encrypt decrypt (some 2) 9 store).1

rotates : rotate_key encrypt decrypt (some 2) 9 store ≡ (some 1, rotated)
unfolding rotate_key rotate_rows assign
rotates = refl

none_other : lookup {V = Sealed (ℕ × String)} "okx.api_key" [] ≡ none
unfolding lookup
none_other = refl

rotate_key-get_example :
    (1 ≡ length store.rows)
    × (rotated.fernet ≡ 2)
    × (rotated.committed ≡ rotated.rows)
    × ((i : String) → get encrypt decrypt i rotated ≡ get encrypt decrypt i store)
rotate_key-get_example =
    rotate_key-get encrypt decrypt (λ k n v. refl) 2 9 store 1 rotated (none_other, tt) rotates

abbrev healthy : Health
healthy = record { streaks = []; alerts = []; heartbeat = none }

abbrev firing : Bool → Firing
firing ok_now = record { cycle_in_progress = false; now = 0; answers = ("okx", ok_now) ∷ [] }

abbrev firings : List Firing
firings = firing false ∷ firing false ∷ firing false ∷ firing true ∷ firing false ∷ []

one_outage : outages_after true true (history "okx" firings) ≡ 1
one_outage = refl

no_streak : streak_of "okx" healthy.streaks ≡ 0
unfolding streak_of lookup
no_streak = refl

one_alert : (run_health_checks firings healthy).alerts ≡ "okx" ∷ []
unfolding run_health_checks
one_alert = refl

run_health_checks-alerts_example :
    count_name "okx" (run_health_checks firings healthy).alerts
    ≡ outages_after true true (history "okx" firings)
run_health_checks-alerts_example = run_health_checks-alerts "okx" firings healthy no_streak refl

abbrev replay_settings : BacktestConfig
replay_settings = record {
  base_amount_aed = whole 100;
  frequency = daily;
  day_of_week = 0;
  taker_fee_pct = whole 0;
  dip_overlay_enabled = true;
  dip_lookback_days = 1;
  dip_threshold_pct = negsuc (10 * unit - 1);
  dip_multiplier = whole 2;
}

-- Three days, the last of them with a gap before it and two prices.
abbrev prices : Prices
prices = (10, whole 8) ∷ (11, whole 5) ∷ (13, whole 6) ∷ (13, whole 7) ∷ []

abbrev first_of_month : ℕ → ℕ
first_of_month day = 1

days_sorted : sort leb (keys (price_lookup prices)) ≡ 10 ∷ 11 ∷ 13 ∷ []
unfolding sort insert price_lookup put_all put
days_sorted = refl

prices-nonzero : All (λ q. nonzero (price_with_fee replay_settings q.1) ≡ true) prices
unfolding mul add
prices-nonzero = (refl, (refl, (refl, (refl, tt))))

-- The fall by 37.5% doubles the second buy.
overlay_used :
    (cycle_on first_of_month replay_settings (price_lookup prices) 13 11 (whole 5) >>= λ c.
    some c.aed_spent)
    ≡ some (whole 200)
unfolding cycle_on div mul add sub price_lookup
overlay_used = refl

run_backtest-BuysOn_example :
    BuysOn first_of_month replay_settings
      (price_lookup prices)
      13
      (run_backtest first_of_month replay_settings prices).replay
      (keep (is_buying_day first_of_month replay_settings (price_lookup prices) 13) (span 10 4))
run_backtest-BuysOn_example =
    run_backtest-BuysOn first_of_month replay_settings prices 10 (11 ∷ 13 ∷ []) (λ e. cc)
      prices-nonzero days_sorted

abbrev monitor : FundingMonitor
monitor = record {
  alert_threshold_pct = whole 15;
  alert_negative_threshold_pct = negsuc (10 * unit - 1);
  cooldown = 86_400;
  instruments = ("okx", "BTC-USDT-SWAP") ∷ [];
}

abbrev spike : FundingReading
spike = record {
  instrument = "BTC-USDT-SWAP";
  exchange = "okx";
  rate_per_period = literal 2 4;
  annualized_pct = literal 219 1;
  settles_at = 0;
}

nothing_kept : last_alert (lookup {V = Option ℕ} (meta_key spike) []) ≡ none
unfolding lookup
nothing_kept = refl

two_alerts :
    (run_checks monitor ((0, spike) ∷ (300, spike) ∷ (90_000, spike) ∷ []) [] []).1
    ≡ (meta_key spike, 90_000) ∷ (meta_key spike, 0) ∷ []
unfolding run_checks
two_alerts = refl

run_checks-IsSpaced_example : IsSpaced 86_400 (
    times_of
      (meta_key spike)
      (run_checks monitor ((0, spike) ∷ (300, spike) ∷ (90_000, spike) ∷ []) [] []).1)
run_checks-IsSpaced_example =
    run_checks-IsSpaced monitor (meta_key spike) ((0, spike) ∷ (300, spike) ∷ (90_000, spike) ∷ [])
      [] nothing_kept

-- The daemon was down when a cycle fell due at 100; the world counts the cycles.
abbrev late : Daemon ℕ
late = record { next_fire = due_at 100; world = 0 }

restarts-once_example :
    (restarts (λ n. n + 1) (λ n. true) 500 (150 ∷ 160 ∷ 300 ∷ []) late).world ≡ 1
restarts-once_example =
    restarts-once (λ n. n + 1) (λ n. true) 150 100 500 (160 ∷ 300 ∷ []) late refl (omega arith) refl
      (omega arith, (omega arith, tt))
