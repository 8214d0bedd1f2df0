-- ===== src/Reload/Jobs.antt =====
-- The scheduler follows its configuration.
use mathlib.Core.Path.{subst}
use bitcoiners_dca.Prelude.{
  ◌≡◌, ◌⊎◌, refl, sym, ◌∙◌, ap, Bool, true, false, not, ◌||◌, Any, Option-cases, arith, Option,
  none, some, List, [], ◌∷◌, some-inj, Bool-cases, inl, inr, if◌then◌else◌,
}
use bitcoiners_dca.Risk.{RiskManager}
use bitcoiners_dca.Reload.{
  Cadence, FundingConfig, Settings, Fresh, Daemon, build_funding_monitor, funding_trigger, or_dubai,
  update_funding, update_cron, rescheduled, reload_if_changed, reload_all, install_jobs,
}

module _ {Trigger : Type 0} where
  -- A start: the monitor, the caps and the hook are those that the constructor sets up.
  pub record IsNew (d : Daemon Trigger) : Type 0 where
    pub monitor : d.funding_monitor ≡ build_funding_monitor d.config
    pub daily : d.risk.max_daily_aed ≡ d.config.caps.max_daily_aed
    pub single : d.risk.max_single_buy_aed ≡ d.config.caps.max_single_buy_aed
    pub failures : d.risk.max_consecutive_failures ≡ d.config.caps.max_consecutive_failures
    pub timezone : d.risk_timezone ≡ or_dubai d.config.cadence.timezone
    pub hooked : d.risk.has_hook ≡ true

module _ {Trigger : Type 0} where
  -- The funding monitor and the risk caps are those of the configuration that the scheduler holds,
  -- and the hook of the risk manager is there.
  pub record Steady (d : Daemon Trigger) : Type 0 where
    pub monitor : d.funding_monitor ≡ build_funding_monitor d.config
    pub daily : d.risk.max_daily_aed ≡ d.config.caps.max_daily_aed
    pub single : d.risk.max_single_buy_aed ≡ d.config.caps.max_single_buy_aed
    pub failures : d.risk.max_consecutive_failures ≡ d.config.caps.max_consecutive_failures
    pub timezone : d.risk_timezone ≡ or_dubai d.config.cadence.timezone
    pub hooked : d.risk.has_hook ≡ true

module _ {Trigger : Type 0} (build_cron : Cadence → Option Trigger) where
  -- The triggers of the two jobs are those of the configuration.
  abbrev pub Armed : Daemon Trigger → Type 0
  Armed d =
      (d.dca_job ≡ build_cron d.config.cadence)
      × (d.funding_job ≡ funding_trigger (build_funding_monitor d.config))

  abbrev pub is_built : Option Trigger → Bool
  is_built none = false
  is_built (some t) = true

  -- The reload swaps the configuration, but a call of the scheduler or the cron builder raises.
  abbrev pub is_lost : (Bool × Bool) × Option Fresh → Bool
  is_lost (ok, none) = false
  is_lost (ok, some f) = not ok.0 || (not ok.1 || not (is_built (build_cron f.config.cadence)))

module _ {Trigger : Type 0} (same_cadence : Cadence → Cadence → Bool)
    (same_funding : FundingConfig → FundingConfig → Bool) (build_cron : Cadence → Option Trigger)
    (cadence_eq : (c d : Cadence) → same_cadence c d ≡ true → c ≡ d)
    (funding_eq : (f g : FundingConfig) → same_funding f g ≡ true → f ≡ g) where
  update_funding-monitor :
      (ok : Bool) (fresh : Settings) (d : Daemon Trigger)
      → d.funding_monitor ≡ build_funding_monitor d.config
      → (update_funding same_cadence same_funding build_cron ok fresh d).funding_monitor
        ≡ build_funding_monitor fresh
  update_funding-monitor ok fresh d h =
      elim (Bool-cases (same_funding d.config.funding fresh.funding)) [
        | inr e ↦ rw e refl
        | inl e ↦
            let same : build_funding_monitor d.config ≡ build_funding_monitor fresh =
              ap (λ (f : FundingConfig). if f.enabled then some f else none)
                (funding_eq d.config.funding fresh.funding e) in
            rw e (h ∙ same)
      ]

  update_funding-job :
      (fresh : Settings) (d : Daemon Trigger)
      → d.funding_job ≡ funding_trigger (build_funding_monitor d.config)
      → (update_funding same_cadence same_funding build_cron true fresh d).funding_job
        ≡ funding_trigger (build_funding_monitor fresh)
  update_funding-job fresh d h = elim (Bool-cases (same_funding d.config.funding fresh.funding)) [
    | inr e ↦ rw e refl
    | inl e ↦
        let same : build_funding_monitor d.config ≡ build_funding_monitor fresh =
          ap (λ (f : FundingConfig). if f.enabled then some f else none)
            (funding_eq d.config.funding fresh.funding e) in
        rw e (h ∙ ap funding_trigger same)
  ]

  rescheduled-built :
      (old t : Option Trigger)
      → is_built build_cron t ≡ true
      → rescheduled same_cadence same_funding build_cron old t ≡ t
  rescheduled-built old none h = absurd (cc)
  rescheduled-built old (some t) h = refl

  update_cron-job :
      (fresh : Settings) (d : Daemon Trigger)
      → d.dca_job ≡ build_cron d.config.cadence
      → is_built build_cron (build_cron fresh.cadence) ≡ true
      → (update_cron same_cadence same_funding build_cron true fresh d).dca_job
        ≡ build_cron fresh.cadence
  update_cron-job fresh d h built =
      elim (Bool-cases (same_cadence d.config.cadence fresh.cadence)) [
        | inl e ↦ rw e (h ∙ ap build_cron (cadence_eq d.config.cadence fresh.cadence e))
        | inr e ↦ rw e (rescheduled-built d.dca_job (build_cron fresh.cadence) built)
      ]

  -- What the two updates leave alone.
  cron_keeps :
      (ok : Bool) (fresh : Settings) (d : Daemon Trigger)
      → let e = update_cron same_cadence same_funding build_cron ok fresh d in
        (e.funding_monitor ≡ d.funding_monitor)
        × (e.funding_job ≡ d.funding_job)
        × (e.risk ≡ d.risk)
  cron_keeps ok fresh d = elim (Bool-cases (same_cadence d.config.cadence fresh.cadence)) [
    | inl e ↦ rw e (refl, refl, refl)
    | inr e ↦ rw e (refl, refl, refl)
  ]

  funding_keeps :
      (ok : Bool) (fresh : Settings) (d : Daemon Trigger)
      → let e = update_funding same_cadence same_funding build_cron ok fresh d in
        (e.config ≡ d.config) × (e.dca_job ≡ d.dca_job) × (e.risk ≡ d.risk)
  funding_keeps ok fresh d = elim (Bool-cases (same_funding d.config.funding fresh.funding)) [
    | inl e ↦ rw e (refl, refl, refl)
    | inr e ↦ rw e (refl, refl, refl)
  ]

  reload-Steady :
      (ok : Bool × Bool) (f : Option Fresh) (d : Daemon Trigger)
      → Steady d
      → Steady (reload_if_changed same_cadence same_funding build_cron ok f d)
  unfolding reload_if_changed
  reload-Steady ok none d h = h
  reload-Steady ok (some f) d h =
      let d1 = update_funding same_cadence same_funding build_cron ok.0 f.config d in
      let kept = funding_keeps ok.0 f.config d in
      let cron = cron_keeps ok.1 f.config d1 in
      record {
        monitor = cron.0 ∙ update_funding-monitor ok.0 f.config d h.monitor;
        daily = refl;
        single = refl;
        failures = refl;
        timezone = refl;
        hooked = ap (λ (r : RiskManager). r.has_hook) (cron.2 ∙ kept.2) ∙ h.hooked;
      }

  reload-Armed :
      (ok : Bool × Bool) (f : Option Fresh) (d : Daemon Trigger)
      → is_lost build_cron (ok, f) ≡ false
      → Armed build_cron d
      → Armed build_cron (reload_if_changed same_cadence same_funding build_cron ok f d)
  unfolding reload_if_changed
  reload-Armed ok none d fine h = h
  reload-Armed (false, c) (some f) d fine h = absurd (ground arith)
  reload-Armed (true, false) (some f) d fine h = absurd (ground arith)
  reload-Armed (true, true) (some f) d fine h =
      let d1 = update_funding same_cadence same_funding build_cron true f.config d in
      let kept = funding_keeps true f.config d in
      let armed : d1.dca_job ≡ build_cron d1.config.cadence =
        kept.1 ∙ h.0 ∙ ap (λ (s : Settings). build_cron s.cadence) (sym kept.0) in
      let built : is_built build_cron (build_cron f.config.cadence) ≡ true = ground arith in
      (
        update_cron-job f.config d1 armed built,
        (cron_keeps true f.config d1).1 ∙ update_funding-job f.config d h.1,
      )

  reload_all-Steady :
      (fs : List ((Bool × Bool) × Option Fresh)) (d : Daemon Trigger)
      → Steady d
      → Steady (reload_all same_cadence same_funding build_cron fs d)
  unfolding reload_all
  reload_all-Steady [] d h = h
  reload_all-Steady ((ok, f) ∷ fs) d h = reload_all-Steady fs _ (reload-Steady ok f d h)

  reload_all-Armed :
      (fs : List ((Bool × Bool) × Option Fresh)) (d : Daemon Trigger)
      → Armed build_cron d
      → Any (λ r. is_lost build_cron r ≡ true) fs
        ⊎ Armed build_cron (reload_all same_cadence same_funding build_cron fs d)
  unfolding reload_all
  reload_all-Armed [] d h = inr h
  reload_all-Armed ((ok, f) ∷ fs) d h = elim (Bool-cases (is_lost build_cron (ok, f))) [
    | inl lost ↦ inl (inl lost)
    | inr fine ↦ elim (reload_all-Armed fs _ (reload-Armed ok f d fine h)) [
      | inl lost ↦ inl (inr lost)
      | inr armed ↦ inr armed
    ]
  ]

  install_jobs-Armed :
      (d e : Daemon Trigger)
      → IsNew d
      → install_jobs same_cadence same_funding build_cron d ≡ some e
      → Steady e × Armed build_cron e
  unfolding install_jobs
  install_jobs-Armed d e new installed = elim (Option-cases (build_cron d.config.cadence)) [
    | inl raises ↦ absurd (let h : none ≡ some e = rw (raises, install_jobs) at installed in cc)
    | inr (t, built) ↦
        let done = some-inj (rw (built, install_jobs) at installed) in
        subst (λ (x : Daemon Trigger). Steady x × Armed build_cron x) done
          (
            record {
              monitor = new.monitor;
              daily = new.daily;
              single = new.single;
              failures = new.failures;
              timezone = new.timezone;
              hooked = new.hooked;
            },
            (sym built, ap funding_trigger new.monitor),
          )
  ]

  -- From the installation of the jobs on, and after any series of reloads, also of rebuilds that
  -- fail and of calls of the scheduler that raise: the funding monitor, the caps and the time zone
  -- of the risk manager are those of the configuration that the daemon holds, and the hook that
  -- pages the operator is still there. The triggers of the cycle and of the funding job are those
  -- of the configuration too, unless a reload swapped the configuration while the cron builder or a
  -- call of the scheduler raised.
  pub reload_all-Follows :
      (d e : Daemon Trigger) (fs : List ((Bool × Bool) × Option Fresh))
      → IsNew d
      → install_jobs same_cadence same_funding build_cron d ≡ some e
      → Steady (reload_all same_cadence same_funding build_cron fs e)
        × (Any (λ r. is_lost build_cron r ≡ true) fs
            ⊎ Armed build_cron (reload_all same_cadence same_funding build_cron fs e))
  reload_all-Follows d e fs new installed =
      let (steady, armed) = install_jobs-Armed d e new installed in
      (reload_all-Steady fs e steady, reload_all-Armed fs e armed)
