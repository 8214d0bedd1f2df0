-- ===== src/Tests/Schedule.antt =====
-- Scheduled cycles on the paper venue.
use bitcoiners_dca.Prelude.{true, none, [], ◌∷◌, arith}
use bitcoiners_dca.Decimal.{sub}
use bitcoiners_dca.Risk.{evaluate}
use bitcoiners_dca.Strategy.{taker}
use bitcoiners_dca.Strategy.Cycle.Ceiling.{AtLeastOne}
use bitcoiners_dca.Scheduler.{Bot, spent_today, run_dca_cycle}
use bitcoiners_dca.Scheduler.Limits.{LogsWithin, InLimits, decision, run_dca_cycle-LogsWithin}
use bitcoiners_dca.Scheduler.Pauses.{Tick}
use bitcoiners_dca.Tests.Venue.{paper, empty_books, settings}
use bitcoiners_dca.Tests.Routes.{plain_router}
use bitcoiners_dca.Tests.Spending.{noon}
use bitcoiners_dca.Tests.Caps.{caps, active}

abbrev pub new_bot : Bot
new_bot = record { risk = active; trades = []; cycle_log = []; last_orphan = none }

abbrev paused_bot : Bot
paused_bot = record new_bot { risk = record active { paused = true } }

ceiling :
    AtLeastOne
      (decision paper
        (λ s. s)
        (settings taker)
        plain_router
        []
        ("okx" ∷ [])
        caps
        0
        100
        noon
        new_bot
        empty_books).cap_aed
unfolding evaluate spent_today sub
ceiling = omega arith

run_dca_cycle-LogsWithin_example :
    LogsWithin paper
      (λ s. s)
      (settings taker)
      plain_router
      []
      ("okx" ∷ [])
      caps
      (InLimits paper
        (λ s. s)
        (settings taker)
        plain_router
        []
        ("okx" ∷ [])
        caps
        0
        100
        noon
        new_bot
        empty_books)
      []
      (run_dca_cycle paper
        (λ s. s)
        (settings taker)
        plain_router
        []
        ("okx" ∷ [])
        caps
        true
        0
        100
        noon
        new_bot
        empty_books).0.cycle_log
run_dca_cycle-LogsWithin_example =
    run_dca_cycle-LogsWithin paper (λ s. s) (settings taker) plain_router [] ("okx" ∷ []) caps 0 100
      noon new_bot empty_books true ceiling

abbrev tick : Tick
tick = record { acquired = true; day_start = 0; day_end = 100; input = noon }
