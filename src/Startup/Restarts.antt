-- ===== src/Startup/Restarts.antt =====
-- How often a missed cycle is made up for.
use bitcoiners_dca.Prelude.{
  ℕ, ◌<◌, ◌≤◌, ◌≡◌, refl, ◌∙◌, ap, inl, inr, Bool, true, false, some, List, [], ◌∷◌, All, arith,
  Bool-cases, if◌then◌else◌,
}
use bitcoiners_dca.Startup.{
  due_at, Daemon, is_due, run_scheduled_cycle, catch_up_missed_cycle, start_up,
}

module _ {W : Type 0} (cycle : W → W) (acquired : W → Bool) where
  -- Starts in turn, each at its time, while the schedule's next run is at `next`.
  abbrev pub restarts : ℕ → List ℕ → Daemon W → Daemon W
  restarts next [] d = d
  restarts next (now ∷ later) d =
      restarts next later (start_up cycle acquired now (some next) (some next) d)

  start_up-next :
      (now next : ℕ) (d : Daemon W)
      → (start_up cycle acquired now (some next) (some next) d).next_fire ≡ due_at next
  unfolding start_up
  start_up-next now next d = refl

  start_up-world :
      (now next : ℕ) (d : Daemon W)
      → (start_up cycle acquired now (some next) (some next) d).world ≡ (
          if is_due now d.next_fire
          then (if acquired d.world then cycle d.world else d.world)
          else d.world)
  unfolding start_up catch_up_missed_cycle run_scheduled_cycle
  start_up-world now next d = elim (Bool-cases (is_due now d.next_fire)) [
    | inr early ↦ rw early refl
    | inl missed ↦ elim (Bool-cases (acquired d.world)) [
      | inl free ↦ rw (missed, free) refl
      | inr held ↦ rw (missed, held) refl
    ]
  ]

  not_due :
      (now next : ℕ) (d : Daemon W)
      → d.next_fire ≡ due_at next
      → now < next
      → is_due now d.next_fire ≡ false
  not_due now next d e early = ap (is_due now) e ∙ ground arith

  -- Starts before the next run leave the world as it is.
  restarts-idle :
      (next : ℕ) (later : List ℕ) (d : Daemon W)
      → d.next_fire ≡ due_at next
      → All (λ now. now < next) later
      → (restarts next later d).world ≡ d.world
  restarts-idle next [] d e early = refl
  restarts-idle next (now ∷ later) d e early =
      restarts-idle next later (start_up cycle acquired now (some next) (some next) d)
        (start_up-next now next d) early.1
      ∙ start_up-world now next d
      ∙ ap (λ b. if b then (if acquired d.world then cycle d.world else d.world) else d.world)
          (not_due now next d e early.0)

  -- A cycle that fell due while the daemon was down is run at its start, if the lock is free, and
  -- only once, however often the daemon is started again before the schedule's next run.
  pub restarts-once :
      (now due next : ℕ) (later : List ℕ) (d : Daemon W)
      → d.next_fire ≡ due_at due
      → due ≤ now
      → acquired d.world ≡ true
      → All (λ t. t < next) later
      → (restarts next (now ∷ later) d).world ≡ cycle d.world
  restarts-once now due next later d e missed free early =
      restarts-idle next later (start_up cycle acquired now (some next) (some next) d)
        (start_up-next now next d) early
      ∙ start_up-world now next d
      ∙ (let due_now : is_due now d.next_fire ≡ true = ap (is_due now) e ∙ ground arith in
          rw (due_now, free) refl)
