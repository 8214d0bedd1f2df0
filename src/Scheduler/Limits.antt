-- ===== src/Scheduler/Limits.antt =====
-- What a scheduled cycle writes and spends, in terms of the risk limits.
use bitcoiners_dca.Prelude.{
  ◌≡◌, refl, ◌⊎◌, inl, inr, ℕ, String, Bool, true, false, Option, List, [], ◌∷◌, ◌++◌, arith,
  Bool-cases,
}
use bitcoiners_dca.Decimal.{Decimal}
use bitcoiners_dca.Models.{Order}
use bitcoiners_dca.Router.{SmartRouter}
use bitcoiners_dca.Overlays.{Overlay}
use bitcoiners_dca.Risk.{RiskManager, RiskDecision, evaluate}
use bitcoiners_dca.Risk.Caps.{Bounds, BoundsLeft, Keeps, evaluate-cap_aed}
use bitcoiners_dca.Strategy.{Result, ok, raise, Venues, StrategyConfig}
use bitcoiners_dca.Strategy.Cycle.{ExecutionResult, CycleInput}
use bitcoiners_dca.Strategy.Cycle.Ceiling.{AtLeastOne, Stamped, Accounted, execute-Accounted}
use bitcoiners_dca.Scheduler.{
  Bot, CycleRow, is_empty, succeeded, record_cycle, record_orphan, spent_today, close_cycle,
  on_decision, run_dca_cycle,
}

module _ (v : Venues) (upper : String → String) (cfg : StrategyConfig) (router : SmartRouter)
    (overlays : List Overlay) (names : List String) (rm : RiskManager) where
  open v use {World}

  -- At most one log row is added, and if it is of a success, its amount is in the limits.
  abbrev pub LogsWithin : (Decimal → Type 0) → List CycleRow → List CycleRow → Type 0
  LogsWithin InLimits old new =
      (new ≡ old)
      ⊎ ((row : CycleRow) × (new ≡ old ++ row ∷ [])
          × ((row.success ≡ false) ⊎ InLimits row.intended_amount_aed))

  stamped_lem :
      (ceiling : Option Decimal) (a : Decimal) (os : List Order)
      → Stamped ceiling a os
      → is_empty os ≡ false
      → Keeps ceiling a
  stamped_lem ceiling a [] h e = absurd (ground arith)
  stamped_lem ceiling a (o ∷ os) h e = h.1

  close_cycle-LogsWithin :
      (InLimits : Decimal → Type 0) (ceiling : Option Decimal) (amount : Decimal) (b : Bot)
      (r : Result ExecutionResult × World)
      → ((a : Decimal) → Keeps ceiling a → InLimits a)
      → Accounted v upper cfg router overlays names ceiling r
      → LogsWithin InLimits b.cycle_log
          (close_cycle v upper cfg router overlays names rm amount b r).0.cycle_log
  unfolding record_cycle record_orphan
  close_cycle-LogsWithin InLimits ceiling amount b (raise e, w) within h =
      inr (record { intended_amount_aed = amount; success = false }, refl, inl refl)
  close_cycle-LogsWithin InLimits ceiling amount b (ok r, w) within h = inr (
    record { intended_amount_aed = r.intended_amount_aed; success = succeeded r },
    refl,
    elim (Bool-cases (succeeded r)) [
      | inr failed ↦ inl failed
      | inl bought ↦ inr (
          within r.intended_amount_aed
            (stamped_lem ceiling r.intended_amount_aed r.orders h.1 (ground arith)))
    ],
  )

  module _ (start end : ℕ) (input : CycleInput) (b : Bot) (w : World) where
    abbrev pub decision : RiskDecision
    decision = evaluate rm b.risk (spent_today start end b) cfg.base_amount_aed

    -- An amount within the single-buy cap and what is left of the daily cap, if they are set.
    abbrev pub InLimits : Decimal → Type 0
    InLimits a =
        Bounds rm.max_single_buy_aed a × BoundsLeft rm.max_daily_aed (spent_today start end b) a

    on_decision-LogsWithin :
        (d : RiskDecision)
        → ((a : Decimal) → d.allow ≡ true → Keeps d.cap_aed a → InLimits a)
        → AtLeastOne d.cap_aed
        → LogsWithin InLimits b.cycle_log
            (on_decision v upper cfg router overlays names rm d input b w).0.cycle_log
    on_decision-LogsWithin d within one = elim (Bool-cases d.allow) [
      | inr refused ↦ rw refused (inl refl)
      | inl allowed ↦ rw allowed (
          close_cycle-LogsWithin InLimits d.cap_aed d.amount_aed b _ (λ a. within a allowed)
            (execute-Accounted v upper cfg router overlays names d.cap_aed input w one))
    ]

    -- A scheduled cycle adds at most one log row. If the row is of a success, then the amount that
    -- it logs is within the single-buy cap and within what the day's recorded spend left of the
    -- daily cap, as far as these are set and not zero, whatever the overlays, the router and the
    -- venues did. The ceiling that the risk manager hands on is at least 1 AED, if there is one.
    pub run_dca_cycle-LogsWithin :
        (acquired : Bool)
        → AtLeastOne decision.cap_aed
        → LogsWithin InLimits b.cycle_log
            (run_dca_cycle v upper cfg router overlays names rm acquired start end input b
              w).0.cycle_log
    unfolding run_dca_cycle
    run_dca_cycle-LogsWithin false one = inl refl
    run_dca_cycle-LogsWithin true one =
        on_decision-LogsWithin decision
          (λ a allowed.
            evaluate-cap_aed rm b.risk (spent_today start end b) cfg.base_amount_aed a allowed)
          one
