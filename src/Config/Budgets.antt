-- ===== src/Config/Budgets.antt =====
-- The budget is the source of truth for the amount of a cycle.
use bitcoiners_dca.Prelude.{◌≡◌, refl, sym, ◌∙◌, some, ap}
use bitcoiners_dca.Decimal.{Decimal}
use bitcoiners_dca.Strategy.Budget.{derive_per_cycle}
use bitcoiners_dca.Config.{StrategySection, backfill_budget}

-- The amount that a budget stands for, if its period and frequency are known.
abbrev pub Derives : Decimal → StrategySection → Decimal → Type 0
Derives budget s amount =
    derive_per_cycle budget s.budget_period s.frequency s.every_n_hours ≡ some amount

load_once :
    (s : StrategySection) (budget amount : Decimal)
    → s.budget_amount ≡ some budget
    → Derives budget s amount
    → backfill_budget s ≡ record s { amount_aed = amount }
unfolding backfill_budget
load_once s budget amount b d = rw (b, d) refl

-- A section with a budget of a known period and frequency loads with the amount that the budget
-- stands for, whatever amount it was stored with; its other fields stay, and what has been loaded
-- loads unchanged.
pub backfill_budget-agrees :
    (s : StrategySection) (budget amount : Decimal)
    → s.budget_amount ≡ some budget
    → Derives budget s amount
    → (backfill_budget s ≡ record s { amount_aed = amount })
      × (backfill_budget (backfill_budget s) ≡ backfill_budget s)
backfill_budget-agrees s budget amount b d =
    let once = load_once s budget amount b d in
    (
      once,
      ap backfill_budget once
          ∙ load_once (record s { amount_aed = amount }) budget amount b d
          ∙ sym once,
    )
