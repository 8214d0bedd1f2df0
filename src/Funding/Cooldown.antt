-- ===== src/Funding/Cooldown.antt =====
-- How far apart the alerts about one instrument are.
use bitcoiners_dca.Prelude.{
  ℕ, ◌+◌, ◌≤◌, ◌≡◌, sym, ◌∙◌, ap, inl, inr, String, false, Option, none, some, List, [], ◌∷◌, arith,
  Bool-cases, if◌then◌else◌, str_eq,
}
use bitcoiners_dca.Prelude.Dict.{lookup, assign, lookup-assign, lookup-assign_other, str_eq→eq}
use bitcoiners_dca.Funding.{
  FundingReading, FundingMonitor, meta_key, Meta, last_alert, within, in_cooldown, is_extreme,
  evaluate_alert, logged, run_checks,
}

-- The times of the alerts under a key, newest first.
abbrev pub times_of : String → List (String × ℕ) → List ℕ
times_of key [] = []
times_of key ((k, t) ∷ log) = if str_eq key k then t ∷ times_of key log else times_of key log

-- Each time is at least the cooldown after the one before it.
abbrev pub IsSpaced : ℕ → List ℕ → Type 0
IsSpaced cooldown [] = Unit
IsSpaced cooldown (t ∷ []) = Unit
IsSpaced cooldown (t ∷ s ∷ ts) = (s + cooldown ≤ t) × IsSpaced cooldown (s ∷ ts)

abbrev newest : List ℕ → Option ℕ
newest [] = none
newest (t ∷ ts) = some t

-- The table holds the time of the newest alert.
record Inv (cooldown : ℕ) (key : String) (meta : Meta) (log : List (String × ℕ)) : Type 0 where
  spaced : IsSpaced cooldown (times_of key log)
  kept : last_alert (lookup key meta) ≡ newest (times_of key log)

module _ (m : FundingMonitor) (key : String) where
  -- An alert now, outside of the cooldown of the newest one.
  IsSpaced-cons :
      (now : ℕ) (ts : List ℕ)
      → IsSpaced m.cooldown ts
      → within m.cooldown now (newest ts) ≡ false
      → IsSpaced m.cooldown (now ∷ ts)
  IsSpaced-cons now [] h e = tt
  IsSpaced-cons now (t ∷ ts) h e = (ground arith, h)

  alert-Inv :
      (now : ℕ) (k : String) (meta : Meta) (log : List (String × ℕ))
      → Inv m.cooldown key meta log
      → in_cooldown m.cooldown now k meta ≡ false
      → Inv m.cooldown key (assign k (some now) meta) ((k, now) ∷ log)
  unfolding in_cooldown
  alert-Inv now k meta log inv free = elim (Bool-cases (str_eq key k)) [
    | inl same ↦
        let is_k = str_eq→eq key k same in
        let cool =
          ap (within m.cooldown now) (sym inv.kept)
          ∙ ap (λ x. within m.cooldown now (last_alert (lookup x meta))) is_k
          ∙ free in
        record {
          spaced = rw same (IsSpaced-cons now (times_of key log) inv.spaced cool);
          kept = rw same (
              ap (λ x. last_alert (lookup x (assign k (some now) meta))) is_k
              ∙ ap last_alert (lookup-assign k (some now) meta));
        }
    | inr differs ↦ record {
      spaced = rw differs inv.spaced;
      kept =
          rw differs (ap last_alert (lookup-assign_other k key (some now) meta differs) ∙ inv.kept);
    }
  ]

  evaluate_alert-Inv :
      (now : ℕ) (r : FundingReading) (meta : Meta) (log : List (String × ℕ))
      → Inv m.cooldown key meta log
      → Inv m.cooldown key
          (evaluate_alert m now r meta).1
          (logged (evaluate_alert m now r meta).0 now (meta_key r) log)
  unfolding evaluate_alert in_cooldown
  evaluate_alert-Inv now r meta log inv = elim (Bool-cases (is_extreme m r)) [
    | inr mild ↦ rw mild inv
    | inl extreme ↦ elim (Bool-cases (in_cooldown m.cooldown now (meta_key r) meta)) [
      | inl cold ↦ rw (extreme, cold) inv
      | inr free ↦ rw (extreme, free) (alert-Inv now (meta_key r) meta log inv free)
    ]
  ]

  run_checks-Inv :
      (checks : List (ℕ × FundingReading)) (meta : Meta) (log : List (String × ℕ))
      → Inv m.cooldown key meta log
      → Inv m.cooldown key (run_checks m checks meta log).0 (run_checks m checks meta log).1
  unfolding run_checks
  run_checks-Inv [] meta log inv = inv
  run_checks-Inv ((now, r) ∷ rest) meta log inv =
      run_checks-Inv rest _ _ (evaluate_alert-Inv now r meta log inv)

  -- From a table without a last alert under the key, any two alerts in turn about one instrument
  -- are at least the cooldown apart, whatever the readings and the clock were.
  pub run_checks-IsSpaced :
      (checks : List (ℕ × FundingReading)) (meta : Meta)
      → last_alert (lookup key meta) ≡ none
      → IsSpaced m.cooldown (times_of key (run_checks m checks meta []).1)
  run_checks-IsSpaced checks meta fresh =
      (run_checks-Inv checks meta [] (record { spaced = tt; kept = fresh })).spaced
