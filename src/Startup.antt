-- ===== src/Startup.antt =====
-- src/bitcoiners_dca/core/scheduler.py: the cron trigger, the start of the daemon with the cycle
-- that was missed while it was down, and its shutdown. apscheduler is known by the next run time
-- that it reports, and a scheduled cycle by what it makes of the world. A marker's text is its
-- time.
pub mod Restarts
use bitcoiners_dca.Prelude.{
  ℕ, zero, suc, String, Bool, false, Option, none, some, leb, ltb, if◌then◌else◌,
}
use bitcoiners_dca.Prelude.Int.{ℤ}
use bitcoiners_dca.Strategy.Budget.{snap_every_n_hours}

pub data Frequency : Type 0 where
  hourly daily weekly monthly other : Frequency

-- The hours of a cron trigger: every hour, every n hours, or one hour.
pub data CronHour : Type 0 where
  any_hour : CronHour
  every at : ℕ → CronHour

pub record CronTrigger : Type 0 where
  pub minute : ℕ
  pub hour : CronHour
  pub day : Option ℕ
  pub day_of_week : Option String

abbrev cron : ℕ → CronHour → Option ℕ → Option String → CronTrigger
cron minute hour day dow = record { minute = minute; hour = hour; day = day; day_of_week = dow }

abbrev weekly_at : ℕ → ℕ → Option String → Option CronTrigger
weekly_at minute hour none = none
weekly_at minute hour (some dow) = some (cron minute (at hour) none (some dow))

-- `_build_cron_trigger`, with the day of the week as `_DOW_MAP` reads it; `none` is the exception.
unfoldable pub build_cron_trigger : Frequency → ℤ → ℕ → ℕ → Option String → Option CronTrigger
unfolding snap_every_n_hours
build_cron_trigger hourly every_n_hours hour minute dow =
    let n = snap_every_n_hours every_n_hours in
    some (cron minute (if ltb 1 n then every n else any_hour) none none)
build_cron_trigger daily every_n_hours hour minute dow = some (cron minute (at hour) none none)
build_cron_trigger weekly every_n_hours hour minute dow = weekly_at minute hour dow
build_cron_trigger monthly every_n_hours hour minute dow =
    some (cron minute (at hour) (some 1) none)
build_cron_trigger other every_n_hours hour minute dow = none

-- `dca.next_fire_at`: absent or "", a text that is no time, or a time.
pub data NextFire : Type 0 where
  unset unreadable : NextFire
  due_at : ℕ → NextFire

-- What outlives a restart.
pub record Daemon (W : Type 0) : Type 0 where
  pub next_fire : NextFire
  pub world : W

abbrev pub is_due : ℕ → NextFire → Bool
is_due now unset = false
is_due now unreadable = false
is_due now (due_at due) = leb due now

module _ {W : Type 0} (cycle : W → W) (acquired : W → Bool) where
  -- `_persist_next_fire`
  abbrev pub persist_next_fire : Option ℕ → Daemon W → Daemon W
  persist_next_fire none d = d
  persist_next_fire (some next) d = record d { next_fire = due_at next }

  -- `_run_dca_cycle` as a whole: a cycle that finds the lock held does not renew the marker.
  unfoldable pub run_scheduled_cycle : Option ℕ → Daemon W → Daemon W
  run_scheduled_cycle next d =
      if acquired d.world then persist_next_fire next (record d { world = cycle d.world }) else d

  -- `_catch_up_missed_cycle`
  unfoldable pub catch_up_missed_cycle : ℕ → Option ℕ → Daemon W → Daemon W
  unfolding run_scheduled_cycle
  catch_up_missed_cycle now next d =
      if is_due now d.next_fire then run_scheduled_cycle next d else d

  -- `run_forever`, up to where it waits for the signal to stop: the schedule's next run is read
  -- after the cycle that is caught up, and again at the end.
  unfoldable pub start_up : ℕ → Option ℕ → Option ℕ → Daemon W → Daemon W
  unfolding catch_up_missed_cycle
  start_up now after_cycle next d = persist_next_fire next (catch_up_missed_cycle now after_cycle d)

  -- The wait of `shutdown`: a second at a time, while a cycle is in progress.
  unfoldable pub wait_for_cycle : (W → Bool) → (W → W) → ℕ → W → W
  wait_for_cycle in_progress second zero w = w
  wait_for_cycle in_progress second (suc n) w =
      let later = wait_for_cycle in_progress second n (second w) in
      if in_progress w then later else w

  -- `shutdown`, as far as the marker and the world go.
  unfoldable pub shutdown : (W → Bool) → (W → W) → Option ℕ → Daemon W → Daemon W
  unfolding wait_for_cycle
  shutdown in_progress second next d =
      persist_next_fire next (record d { world = wait_for_cycle in_progress second 120 d.world })
