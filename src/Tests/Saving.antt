-- ===== src/Tests/Saving.antt =====
-- The form of the strategy, on a buy of 500 AED a week without caps.
use bitcoiners_dca.Prelude.{◌≡◌, refl, true, none, some, [], ◌∷◌, arith}
use bitcoiners_dca.Prelude.Int.{pos, ◌<ℤ◌, ◌≤ℤ◌}
use bitcoiners_dca.Decimal.{whole, literal, sub, quantize_up}
use bitcoiners_dca.Strategy.Budget.{derive_per_cycle}
use bitcoiners_dca.Risk.{RiskManager, RiskDecision, evaluate}
use bitcoiners_dca.Config.{backfill_budget}
use bitcoiners_dca.Dashboard.StrategyForm.{
  StrategyForm, StrategyPatch, finite, saved, strategy_save, patch_for, section_of,
}
use bitcoiners_dca.Dashboard.StrategyForm.Saving.{IsSane, strategy_save-IsSane}
use bitcoiners_dca.Dashboard.StrategyForm.DailyCap.{strategy_save-underspends}
use bitcoiners_dca.Strategy.{taker}
use bitcoiners_dca.Strategy.Cycle.Ceiling.{AtLeastOne}
use bitcoiners_dca.Scheduler.{spent_today, run_dca_cycle}
use bitcoiners_dca.Scheduler.Limits.{LogsWithin, decision}
use bitcoiners_dca.Tests.Venue.{paper, empty_books, settings}
use bitcoiners_dca.Tests.Routes.{plain_router}
use bitcoiners_dca.Tests.Spending.{noon}
use bitcoiners_dca.Tests.Schedule.{new_bot}

abbrev weekly_form : StrategyForm
weekly_form = record {
  budget = finite (whole 500);
  budget_period = "weekly";
  frequency = "weekly";
  every_n_hours = some (pos 1);
  max_daily_aed = none;
  max_single_buy_aed = none;
  dip_multiplier = some (whole 9);
  boost_multiplier = some (literal 15 1);
  dampen_multiplier = none;
}

abbrev weekly_patch : StrategyPatch
weekly_patch = patch_for weekly_form (whole 500) (whole 500)

weekly_saved : strategy_save weekly_form ≡ saved weekly_patch
unfolding strategy_save patch_for derive_per_cycle quantize_up
weekly_saved = refl

-- A cap of 143 AED a day, for buys of 500 AED.
weekly_cap : weekly_patch.max_daily_aed ≡ some (whole 143)
unfolding patch_for
weekly_cap = refl

strategy_save-IsSane_example :
    IsSane weekly_patch × (backfill_budget (section_of weekly_patch) ≡ section_of weekly_patch)
strategy_save-IsSane_example = strategy_save-IsSane weekly_form weekly_patch weekly_saved

abbrev weekly_manager : RiskManager
weekly_manager = record {
  max_daily_aed = some (whole 143);
  max_single_buy_aed = none;
  max_consecutive_failures = 5;
  has_hook = true;
}

weekly_amount : weekly_patch.amount_aed ≡ whole 500
unfolding patch_for
weekly_amount = refl

-- A scheduled cycle of 500 AED under that manager, on the paper venue.
abbrev weekly_decision : RiskDecision
weekly_decision =
    decision paper (λ s. s) (settings taker) plain_router [] ("okx" ∷ []) weekly_manager 0 100 noon
      new_bot empty_books

weekly_ceiling : AtLeastOne weekly_decision.cap_aed
unfolding evaluate spent_today sub
weekly_ceiling = omega arith

nothing_spent : whole 0 ≤ℤ spent_today 0 100 new_bot
unfolding spent_today
nothing_spent = omega arith

strategy_save-underspends_example :
    LogsWithin paper
      (λ s. s)
      (settings taker)
      plain_router
      []
      ("okx" ∷ [])
      weekly_manager
      (λ a. a <ℤ whole 500)
      []
      (run_dca_cycle paper
        (λ s. s)
        (settings taker)
        plain_router
        []
        ("okx" ∷ [])
        weekly_manager
        true
        0
        100
        noon
        new_bot
        empty_books).0.cycle_log
unfolding patch_for
strategy_save-underspends_example =
    strategy_save-underspends paper (λ s. s) (settings taker) plain_router [] ("okx" ∷ [])
      weekly_manager true weekly_form weekly_patch 0 100 noon new_bot empty_books true weekly_saved
      refl refl refl (omega arith) nothing_spent weekly_ceiling
