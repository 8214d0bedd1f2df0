-- ===== src/Risk/Pausing.antt =====
-- The pause state machine: runs of `record_cycle_result`, `pause` and `resume`.
use bitcoiners_dca.Prelude.{
  ℕ, zero, suc, ◌+◌, ◌-◌, ◌≤◌, ◌<◌, ◌≡◌, refl, inl, inr, Bool, true, false, not, ◌&&◌, ◌||◌, List,
  [], ◌∷◌, arith, leb, if◌then◌else◌, Bool-cases,
}
use bitcoiners_dca.Risk.{RiskManager, RiskState, record_cycle_result, pause}

-- The state after a series of cycles, `true` for a success.
pub record_all : RiskManager → List Bool → RiskState → RiskState
record_all rm [] s = s
record_all rm (r ∷ rs) s = record_all rm rs (record_cycle_result rm r s)

-- The series begins with n failures.
abbrev pub fails_first : ℕ → List Bool → Bool
fails_first zero rs = true
fails_first (suc n) [] = false
fails_first (suc n) (true ∷ rs) = false
fails_first (suc n) (false ∷ rs) = fails_first n rs

-- Somewhere in the series stand n failures in a row.
abbrev pub has_streak : ℕ → List Bool → Bool
has_streak n [] = fails_first n []
has_streak n (r ∷ rs) = fails_first n (r ∷ rs) || has_streak n rs

fails_first-zero : (n : ℕ) (rs : List Bool) → n ≡ 0 → fails_first n rs ≡ true
fails_first-zero zero rs h = refl
fails_first-zero (suc n) rs h = absurd (omega arith)

fails_first-nil : (n : ℕ) → 0 < n → fails_first n [] ≡ false
fails_first-nil zero h = absurd (omega arith)
fails_first-nil (suc n) h = refl

fails_first-true : (n : ℕ) (rs : List Bool) → 0 < n → fails_first n (true ∷ rs) ≡ false
fails_first-true zero rs h = absurd (omega arith)
fails_first-true (suc n) rs h = refl

fails_first-false :
    (n : ℕ) (rs : List Bool) → 0 < n → fails_first n (false ∷ rs) ≡ fails_first (n - 1) rs
fails_first-false zero rs h = absurd (omega arith)
fails_first-false (suc n) rs h = let e : suc n - 1 ≡ n = omega arith in rw e

fails_first-le :
    (n m : ℕ) (rs : List Bool) → n ≤ m → fails_first m rs ≡ true → fails_first n rs ≡ true
fails_first-le zero m rs le h = refl
fails_first-le (suc n) zero rs le h = absurd (omega arith)
fails_first-le (suc n) (suc m) [] le h = h
fails_first-le (suc n) (suc m) (true ∷ rs) le h = h
fails_first-le (suc n) (suc m) (false ∷ rs) le h = fails_first-le n m rs (omega arith) h

has_streak-fails_first :
    (n : ℕ) (rs : List Bool) → (fails_first n rs || has_streak n rs) ≡ has_streak n rs
has_streak-fails_first n [] = ground arith
has_streak-fails_first n (r ∷ rs) = ground arith

-- A paused bot stays paused, whatever the cycles do.
record_all-paused :
    (rm : RiskManager) (rs : List Bool) (s : RiskState)
    → s.paused ≡ true
    → ((record_all rm rs s).paused ≡ true) × ((record_all rm rs s).alerts ≡ s.alerts)
unfolding record_all record_cycle_result pause
record_all-paused rm [] s h = (h, refl)
record_all-paused rm (true ∷ rs) s h = record_all-paused rm rs _ h
record_all-paused rm (false ∷ rs) s h =
    ground (arith, record_all-paused rm rs (record_cycle_result rm false s))

module _ (rm : RiskManager) (set : 0 < rm.max_consecutive_failures) where
  succeeds :
      (s : RiskState)
      → ((record_cycle_result rm true s).paused ≡ s.paused)
        × ((record_cycle_result rm true s).consecutive_failures ≡ 0)
  unfolding record_cycle_result
  succeeds s = (refl, refl)

  fails :
      (s : RiskState)
      → ((record_cycle_result rm false s).paused
          ≡ (s.paused || leb rm.max_consecutive_failures (s.consecutive_failures + 1)))
        × ((record_cycle_result rm false s).consecutive_failures ≡ s.consecutive_failures + 1)
  unfolding record_cycle_result pause
  fails s = ground arith

  succeeds_alerts : (s : RiskState) → (record_cycle_result rm true s).alerts ≡ s.alerts
  unfolding record_cycle_result
  succeeds_alerts s = refl

  fails_alerts :
      (s : RiskState)
      → (record_cycle_result rm false s).alerts ≡ (
          if (not s.paused && leb rm.max_consecutive_failures (s.consecutive_failures + 1))
            && rm.has_hook
          then s.alerts + 1
          else s.alerts)
  unfolding record_cycle_result pause
  fails_alerts s = ground arith

  all_left : rm.max_consecutive_failures - 0 ≡ rm.max_consecutive_failures
  all_left = omega arith

  same_left : (c : ℕ) → rm.max_consecutive_failures - c - 1 ≡ rm.max_consecutive_failures - (c + 1)
  same_left c = omega arith

  -- With c failures behind it, the bot pauses where the rest of a streak or a whole streak follows.
  record_all-paused_from :
      (c : ℕ) (rs : List Bool) (s : RiskState)
      → s.paused ≡ false
      → s.consecutive_failures ≡ c
      → c < rm.max_consecutive_failures
      → (record_all rm rs s).paused ≡ (
          fails_first (rm.max_consecutive_failures - c) rs
          || has_streak rm.max_consecutive_failures rs)
  unfolding record_all
  record_all-paused_from c [] s p f l = ground (
    arith,
    fails_first-nil (rm.max_consecutive_failures - c),
    fails_first-nil rm.max_consecutive_failures,
  )
  record_all-paused_from c (true ∷ rs) s p f l = ground (
    arith,
    record_all-paused_from 0 rs (record_cycle_result rm true s),
    succeeds s,
    fails_first-true (rm.max_consecutive_failures - c) rs,
    fails_first-true rm.max_consecutive_failures rs,
    has_streak-fails_first rm.max_consecutive_failures rs,
  )
  record_all-paused_from c (false ∷ rs) s p f l =
      elim (Bool-cases (leb rm.max_consecutive_failures (c + 1))) [
        | inl reached ↦ ground (
          arith,
          fails s,
          record_all-paused rm rs (record_cycle_result rm false s),
          fails_first-false (rm.max_consecutive_failures - c) rs,
          fails_first-zero (rm.max_consecutive_failures - c - 1) rs,
        )
        | inr more ↦ ground (
          arith,
          fails s,
          record_all-paused_from (c + 1) rs (record_cycle_result rm false s),
          fails_first-false (rm.max_consecutive_failures - c) rs,
          fails_first-false rm.max_consecutive_failures rs,
          fails_first-le (rm.max_consecutive_failures - (c + 1)) (rm.max_consecutive_failures - 1)
              rs,
          same_left c,
        )
      ]

  -- The hook is called once if the series pauses the bot, and never else.
  record_all-alerts :
      (rs : List Bool) (s : RiskState)
      → s.paused ≡ false
      → (record_all rm rs s).alerts
        ≡ (if (record_all rm rs s).paused && rm.has_hook then s.alerts + 1 else s.alerts)
  unfolding record_all
  record_all-alerts [] s p = ground arith
  record_all-alerts (true ∷ rs) s p =
      ground
        (arith, succeeds s, succeeds_alerts s, record_all-alerts rs (record_cycle_result rm true s))
  record_all-alerts (false ∷ rs) s p = ground (
    arith,
    fails s,
    fails_alerts s,
    record_all-alerts rs (record_cycle_result rm false s),
    record_all-paused rm rs (record_cycle_result rm false s),
  )

  -- With a positive threshold, from an active bot with no failure behind it, a series of cycles
  -- ends paused exactly if it holds as many failures in a row as the threshold says; and the admin
  -- hook, if there is one, has then been called once, else not at all.
  pub record_all-auto_pause :
      (rs : List Bool) (s : RiskState)
      → s.paused ≡ false
      → s.consecutive_failures ≡ 0
      → let streak = has_streak rm.max_consecutive_failures rs in
        ((record_all rm rs s).paused ≡ streak)
        × ((record_all rm rs s).alerts ≡ (if streak && rm.has_hook then s.alerts + 1 else s.alerts))
  record_all-auto_pause rs s p f = ground (
    arith,
    record_all-paused_from 0 rs s,
    record_all-alerts rs s,
    has_streak-fails_first rm.max_consecutive_failures rs,
    all_left,
  )
