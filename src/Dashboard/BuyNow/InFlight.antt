-- ===== src/Dashboard/BuyNow/InFlight.antt =====
-- That one buy runs at a time.
use bitcoiners_dca.Prelude.{
  ℕ, String, str_eq, false, ◌+◌, ◌<◌, ◌≡◌, ◌≢◌, refl, sym, ◌∙◌, ap, inl, inr, true, none, some,
  List, [], ◌∷◌, All, lt→ltb, Bool-cases,
}
use bitcoiners_dca.Prelude.Dict.{str_eq_refl}
use bitcoiners_dca.Risk.{evaluate}
use bitcoiners_dca.Persistence.{
  Lock, cycle_lock_ttl_seconds, is_held, held_by, try_acquire_cycle_lock, release_cycle_lock,
}
use bitcoiners_dca.Dashboard.BuyNow.{
  since, Button, Click, blocked, in_flight, busy, started, is_in_flight, controls_buy_now,
  run_buy_once_and_log, Attempt, click,
}

-- What touches the button's marker or the lock: a click, the end of the background buy of a
-- process, and the begin and the end of a scheduled cycle of a process.
pub data Event : Type 0 where
  clicked : Attempt → Event
  buy_ended : String → Event
  cycle_begun : String → ℕ → Event
  cycle_ended : String → Event

-- The answers to the clicks among the events in turn, and the state after them.
abbrev pub run_events : List Event → Button → List Click × Button
run_events [] b = ([], b)
run_events (clicked a ∷ rest) b =
    let (answer, b') = click a b in
    let (answers, b'') = run_events rest b' in (answer ∷ answers, b'')
run_events (buy_ended p ∷ rest) b =
    run_events rest (run_buy_once_and_log {W = Unit} p (λ w. w) (b, tt)).0
run_events (cycle_begun p now ∷ rest) b =
    run_events rest
      (record b { lock = (try_acquire_cycle_lock cycle_lock_ttl_seconds p now b.lock).1 })
run_events (cycle_ended p ∷ rest) b =
    run_events rest (record b { lock = release_cycle_lock p b.lock })

-- The event lies in the lifetime of the lock that `me` took at `start`, and is not the end of a buy
-- or cycle of that same process.
abbrev pub Meanwhile : String → ℕ → Event → Type 0
Meanwhile me start (clicked c) = c.now < start + cycle_lock_ttl_seconds
Meanwhile me start (buy_ended p) = str_eq me p ≡ false
Meanwhile me start (cycle_begun p now) = now < start + cycle_lock_ttl_seconds
Meanwhile me start (cycle_ended p) = str_eq me p ≡ false

differ :
    (r : Click × Button) (b' : Button)
    → r.0 ≢ started
    → ◌≡◌ {A = Click × Button} r (started, b')
    → ⊥
differ r b' ne e = ne (ap (λ x. x.0) e)

held_click :
    (a : Attempt) (b : Button)
    → is_held cycle_lock_ttl_seconds a.now b.lock ≡ true
    → ((click a b).0 ≢ started) × ((click a b).1 ≡ b)
unfolding controls_buy_now try_acquire_cycle_lock
held_click a b held = elim (Bool-cases (evaluate a.rm a.risk a.spent a.amount).allow) [
  | inr refused_risk ↦ rw refused_risk (λ e. cc, refl)
  | inl ok_risk ↦ elim (Bool-cases (is_in_flight a.now b.started_at)) [
    | inl flying ↦ rw (ok_risk, flying) (λ e. cc, refl)
    | inr landed ↦ rw (ok_risk, landed, held) (λ e. cc, refl)
  ]
]

-- What a click that starts a buy has found and leaves.
started-click :
    (a : Attempt) (b b' : Button)
    → click a b ≡ (started, b')
    → b' ≡ record { started_at = since a.now; lock = some (held_by a.me a.now) }
unfolding controls_buy_now try_acquire_cycle_lock
started-click a b b' e = elim (Bool-cases (evaluate a.rm a.risk a.spent a.amount).allow) [
  | inr refused_risk ↦ absurd (differ (blocked, b) b' (λ q. cc) (rw refused_risk at e))
  | inl ok_risk ↦ elim (Bool-cases (is_in_flight a.now b.started_at)) [
    | inl flying ↦ absurd (differ (in_flight, b) b' (λ q. cc) (rw (ok_risk, flying) at e))
    | inr landed ↦ elim (Bool-cases (is_held cycle_lock_ttl_seconds a.now b.lock)) [
      | inl held ↦ absurd (differ (busy, b) b' (λ q. cc) (rw (ok_risk, landed, held) at e))
      | inr free ↦
          let now : Button = record {
            started_at = since a.now;
            lock = some (held_by a.me a.now);
          } in
          let h : ◌≡◌ {A = Click × Button} (started, now) (started, b') =
            rw (ok_risk, landed, free) at e in
          sym (ap (λ r. r.1) h)
    ]
  ]
]

kept_by_other :
    (me p : String) (start : ℕ) (lock : Lock)
    → lock ≡ some (held_by me start)
    → str_eq me p ≡ false
    → release_cycle_lock p lock ≡ some (held_by me start)
unfolding release_cycle_lock
kept_by_other me p start lock e other = ap (release_cycle_lock p) e ∙ rw other refl

kept_by_refusal :
    (me p : String) (start now : ℕ) (lock : Lock)
    → lock ≡ some (held_by me start)
    → now < start + cycle_lock_ttl_seconds
    → (try_acquire_cycle_lock cycle_lock_ttl_seconds p now lock).1 ≡ some (held_by me start)
unfolding try_acquire_cycle_lock
kept_by_refusal me p start now lock e soon =
    let held : is_held cycle_lock_ttl_seconds now lock ≡ true =
      ap (is_held cycle_lock_ttl_seconds now) e
      ∙ lt→ltb now (start + cycle_lock_ttl_seconds) soon in
    rw held e

run_events-refused :
    (me : String) (start : ℕ) (events : List Event) (b : Button)
    → b.lock ≡ some (held_by me start)
    → All (Meanwhile me start) events
    → All (λ answer. answer ≢ started) (run_events events b).0
unfolding run_buy_once_and_log
run_events-refused me start [] b e h = tt
run_events-refused me start (clicked a ∷ rest) b e h =
    let held : is_held cycle_lock_ttl_seconds a.now b.lock ≡ true =
      ap (is_held cycle_lock_ttl_seconds a.now) e
      ∙ lt→ltb a.now (start + cycle_lock_ttl_seconds) h.0 in
    let (ne, same) = held_click a b held in
    (ne, run_events-refused me start rest (click a b).1 (ap (λ (s : Button). s.lock) same ∙ e) h.1)
run_events-refused me start (buy_ended p ∷ rest) b e h =
    run_events-refused me start rest _ (kept_by_other me p start b.lock e h.0) h.1
run_events-refused me start (cycle_begun p now ∷ rest) b e h =
    run_events-refused me start rest _ (kept_by_refusal me p start now b.lock e h.0) h.1
run_events-refused me start (cycle_ended p ∷ rest) b e h =
    run_events-refused me start rest _ (kept_by_other me p start b.lock e h.0) h.1

-- After a click has started a buy, no click in the lifetime of the cycle lock starts another, as
-- long as the process of that buy ends neither it nor another buy or cycle of its own, whichever
-- process the clicks reach, whatever they read of the risk, and whatever buys of other processes
-- end and scheduled cycles begin or end in between.
pub run_events-none_started :
    (a : Attempt) (b b' : Button) (events : List Event)
    → click a b ≡ (started, b')
    → All (Meanwhile a.me a.now) events
    → All (λ answer. answer ≢ started) (run_events events b').0
run_events-none_started a b b' events e h =
    run_events-refused a.me a.now events b' (ap (λ (s : Button). s.lock) (started-click a b b' e)) h

-- When the buy of a click ends, also in an exception, the button is free again: the next click that
-- the risk manager allows starts a buy.
pub run_buy_once_and_log-started :
    {W : Type 0} (a c : Attempt) (b b' : Button) (buy_once : W → W) (w : W)
    → click a b ≡ (started, b')
    → (evaluate c.rm c.risk c.spent c.amount).allow ≡ true
    → (click c (run_buy_once_and_log a.me buy_once (b', w)).0).0 ≡ started
unfolding run_buy_once_and_log release_cycle_lock controls_buy_now try_acquire_cycle_lock
run_buy_once_and_log-started a c b b' buy_once w e ok_risk =
    let left = started-click a b b' e in
    let freed : release_cycle_lock a.me b'.lock ≡ none =
      ap (λ s. release_cycle_lock a.me s.lock) left ∙ rw (str_eq_refl a.me) refl in
    rw (freed, ok_risk) refl
