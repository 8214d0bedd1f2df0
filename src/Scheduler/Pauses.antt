-- ===== src/Scheduler/Pauses.antt =====
-- The pause state across scheduled cycles.
use bitcoiners_dca.Prelude.{
  ℕ, ◌≡◌, refl, ap, ◌∙◌, ◌<◌, String, Bool, true, false, List, [], ◌∷◌, inl, inr, Bool-cases, ◌⊎◌,
}
use bitcoiners_dca.Decimal.{Decimal}
use bitcoiners_dca.Router.{SmartRouter}
use bitcoiners_dca.Overlays.{Overlay}
use bitcoiners_dca.Risk.{RiskManager, RiskState, RiskDecision, evaluate}
use bitcoiners_dca.Strategy.{Venues, StrategyConfig}
use bitcoiners_dca.Strategy.Cycle.{CycleInput}
use bitcoiners_dca.Scheduler.{Bot, spent_today, on_decision, run_dca_cycle}

-- One firing of the schedule.
pub record Tick : Type 0 where
  pub acquired : Bool
  pub day_start : ℕ
  pub day_end : ℕ
  pub input : CycleInput

-- An active bot has fewer failures behind it than the threshold.
abbrev pub Armed : RiskManager → RiskState → Type 0
Armed rm s = (s.paused ≡ true) ⊎ (s.consecutive_failures < rm.max_consecutive_failures)

evaluate-paused :
    (rm : RiskManager) (s : RiskState) (spent intended : Decimal)
    → s.paused ≡ true
    → (evaluate rm s spent intended).allow ≡ false
unfolding evaluate
evaluate-paused rm s spent intended h = rw h refl

module _ (v : Venues) (upper : String → String) (cfg : StrategyConfig) (router : SmartRouter)
    (overlays : List Overlay) (names : List String) (rm : RiskManager) where
  open v use {World}

  abbrev after : Tick → Bot × World → Bot × World
  after t (b, w) =
      run_dca_cycle v upper cfg router overlays names rm t.acquired t.day_start t.day_end t.input b
        w

  -- The schedule's firings in turn.
  unfoldable pub run_ticks : List Tick → Bot × World → Bot × World
  run_ticks [] s = s
  run_ticks (t ∷ ts) s = run_ticks ts (after t s)

  abbrev decision_at : Tick → Bot → RiskDecision
  decision_at t b = evaluate rm b.risk (spent_today t.day_start t.day_end b) cfg.base_amount_aed

  on_decision-refused :
      (d : RiskDecision) (input : CycleInput) (b : Bot) (w : World)
      → d.allow ≡ false
      → on_decision v upper cfg router overlays names rm d input b w ≡ (b, w)
  on_decision-refused d input b w h = rw h refl

  after-paused : (t : Tick) (b : Bot) (w : World) → b.risk.paused ≡ true → after t (b, w) ≡ (b, w)
  unfolding run_dca_cycle
  after-paused t b w h = elim (Bool-cases t.acquired) [
    | inr busy ↦ rw busy refl
    | inl free ↦ rw free (
        on_decision-refused (decision_at t b) t.input b w
          (evaluate-paused rm b.risk (spent_today t.day_start t.day_end b) cfg.base_amount_aed h))
  ]

  -- However often the schedule fires, a paused bot changes nothing: no call of an exchange that
  -- changes the world, no order, no log row, no count.
  pub run_ticks-paused :
      (ts : List Tick) (b : Bot) (w : World) → b.risk.paused ≡ true → run_ticks ts (b, w) ≡ (b, w)
  unfolding run_ticks
  run_ticks-paused [] b w h = refl
  run_ticks-paused (t ∷ ts) b w h =
      ap (run_ticks ts) (after-paused t b w h) ∙ run_ticks-paused ts b w h
