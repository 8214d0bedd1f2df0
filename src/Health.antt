-- ===== src/Health.antt =====
-- src/bitcoiners_dca/core/scheduler.py: the periodic health checks, which report an exchange that
-- keeps failing and write the heartbeat. The message's text is left out.
pub mod Outages
use bitcoiners_dca.Prelude.{
  ℕ, suc, String, Bool, true, false, Option, none, some, List, [], ◌∷◌, if◌then◌else◌, ◌==◌,
}
use bitcoiners_dca.Prelude.Dict.{Dict, lookup, assign}

-- `_health_fail_streak`, the names that the notifier was told, newest first, and the heartbeat.
pub record Health : Type 0 where
  pub streaks : Dict ℕ
  pub alerts : List String
  pub heartbeat : Option ℕ

abbrev pub health_alert_threshold : ℕ
health_alert_threshold = 2

abbrev or_zero : Option ℕ → ℕ
or_zero none = 0
or_zero (some n) = n

unfoldable pub streak_of : String → Dict ℕ → ℕ
unfolding lookup
streak_of name streaks = or_zero (lookup name streaks)

-- One exchange of the loop, with what its `health_check` came to.
unfoldable pub check_one : String → Bool → Health → Health
unfolding streak_of assign
check_one name true h = record h { streaks = assign name 0 h.streaks }
check_one name false h =
    let streak = suc (streak_of name h.streaks) in
    record h {
      streaks = assign name streak h.streaks;
      alerts = if streak == health_alert_threshold then name ∷ h.alerts else h.alerts;
    }

unfoldable pub check_all : List (String × Bool) → Health → Health
unfolding check_one
check_all [] h = h
check_all ((name, healthy) ∷ rest) h = check_all rest (check_one name healthy h)

-- One firing of the job: whether a cycle is in progress, the time, and the exchanges' answers.
pub record Firing : Type 0 where
  pub cycle_in_progress : Bool
  pub now : ℕ
  pub answers : List (String × Bool)

-- `_run_health_check` and `_run_health_check_inner`
unfoldable pub run_health_check : Firing → Health → Health
unfolding check_all
run_health_check f h =
    if f.cycle_in_progress then h else record (check_all f.answers h) { heartbeat = some f.now }

unfoldable pub run_health_checks : List Firing → Health → Health
unfolding run_health_check
run_health_checks [] h = h
run_health_checks (f ∷ fs) h = run_health_checks fs (run_health_check f h)
