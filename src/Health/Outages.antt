-- ===== src/Health/Outages.antt =====
-- How often a failing exchange is reported.
use bitcoiners_dca.Prelude.{
  ℕ, zero, suc, ◌+◌, ◌≡◌, refl, sym, ◌∙◌, ap, inl, inr, String, Bool, true, false, List, [], ◌∷◌,
  ◌++◌, arith, Bool-cases, if◌then◌else◌, ◌==◌, str_eq,
}
use bitcoiners_dca.Prelude.Dict.{lookup-assign, lookup-assign_other, str_eq→eq, str_eq_refl}
use bitcoiners_dca.Health.{
  Health, health_alert_threshold, or_zero, streak_of, check_one, check_all, Firing,
  run_health_check, run_health_checks,
}

-- The answers of one exchange, in order.
abbrev pub answers_of : String → List (String × Bool) → List Bool
answers_of x [] = []
answers_of x ((name, healthy) ∷ rest) =
    if str_eq x name then healthy ∷ answers_of x rest else answers_of x rest

abbrev pub history : String → List Firing → List Bool
history x [] = []
history x (f ∷ fs) =
    if f.cycle_in_progress then history x fs else answers_of x f.answers ++ history x fs

-- A success, or the start, and then two failures.
abbrev begins_outage : Bool → Bool → Bool → ℕ
begins_outage true false false = 1
begins_outage _ _ _ = 0

-- How many outages begin in a history that follows the two given answers.
abbrev pub outages_after : Bool → Bool → List Bool → ℕ
outages_after a b [] = 0
outages_after a b (c ∷ rest) = begins_outage a b c + outages_after b c rest

abbrev pub count_name : String → List String → ℕ
count_name x [] = 0
count_name x (y ∷ ys) = if str_eq x y then suc (count_name x ys) else count_name x ys

-- The outages to come after so many failures in a row.
abbrev outages_from : ℕ → List Bool → ℕ
outages_from zero h = outages_after true true h
outages_from (suc zero) h = outages_after true false h
outages_from (suc (suc n)) h = outages_after false false h

recovered : (a : Bool) (h : List Bool) → outages_after a true h ≡ outages_after true true h
recovered a [] = refl
recovered true (c ∷ h) = refl
recovered false (c ∷ h) = refl

outages_from-true : (n : ℕ) (h : List Bool) → outages_from n (true ∷ h) ≡ outages_from 0 h
outages_from-true zero h = omega arith
outages_from-true (suc zero) h = omega (arith, recovered false h)
outages_from-true (suc (suc n)) h = omega (arith, recovered false h)

abbrev alert_now : ℕ → ℕ
alert_now n = if suc n == health_alert_threshold then 1 else 0

outages_from-false :
    (n : ℕ) (h : List Bool) → outages_from n (false ∷ h) ≡ alert_now n + outages_from (suc n) h
outages_from-false zero h = refl
outages_from-false (suc zero) h = refl
outages_from-false (suc (suc n)) h = ground arith

-- What the counts of x and its outages to come amount to, with the further answers `rest`.
abbrev total : String → List Bool → Health → ℕ
total x rest h = count_name x h.alerts + outages_from (streak_of x h.streaks) rest

check_one-other :
    (name x : String) (healthy : Bool) (h : Health) (rest : List Bool)
    → str_eq x name ≡ false
    → total x rest (check_one name healthy h) ≡ total x rest h
unfolding check_one streak_of
check_one-other name x true h rest ne =
    ap (λ o. count_name x h.alerts + outages_from (or_zero o) rest)
      (lookup-assign_other name x 0 h.streaks ne)
check_one-other name x false h rest ne =
    let n = suc (streak_of name h.streaks) in
    let same =
      ap (λ o. outages_from (or_zero o) rest) (lookup-assign_other name x n h.streaks ne) in
    elim (Bool-cases (n == health_alert_threshold)) [
      | inl e ↦ rw (e, ne) (ap (λ m. count_name x h.alerts + m) same)
      | inr e ↦ rw e (ap (λ m. count_name x h.alerts + m) same)
    ]

check_one-same :
    (x : String) (healthy : Bool) (h : Health) (rest : List Bool)
    → total x rest (check_one x healthy h) ≡ total x (healthy ∷ rest) h
unfolding check_one streak_of
check_one-same x true h rest =
    let now = ap (λ o. outages_from (or_zero o) rest) (lookup-assign x 0 h.streaks) in
    omega (arith, now, outages_from-true (streak_of x h.streaks) rest)
check_one-same x false h rest =
    let n = suc (streak_of x h.streaks) in
    let now = ap (λ o. outages_from (or_zero o) rest) (lookup-assign x n h.streaks) in
    let soon = outages_from-false (streak_of x h.streaks) rest in
    elim (Bool-cases (n == health_alert_threshold)) [
      | inl e ↦
          rw (e, str_eq_refl x)
            (let one : alert_now (streak_of x h.streaks) ≡ 1 = ap (λ b. if b then 1 else 0) e in
              omega (arith, now, soon, one))
      | inr e ↦ rw e (
          let nothing : alert_now (streak_of x h.streaks) ≡ 0 = ap (λ b. if b then 1 else 0) e in
          omega (arith, now, soon, nothing))
    ]

outages_from-nil : (n : ℕ) → outages_from n [] ≡ 0
outages_from-nil zero = refl
outages_from-nil (suc zero) = refl
outages_from-nil (suc (suc n)) = refl

check_all-total :
    (x : String) (answers : List (String × Bool)) (h : Health) (rest : List Bool)
    → total x rest (check_all answers h) ≡ total x (answers_of x answers ++ rest) h
unfolding check_all
check_all-total x [] h rest = refl
check_all-total x ((name, healthy) ∷ answers) h rest =
    check_all-total x answers (check_one name healthy h) rest ∙ elim (Bool-cases (str_eq x name)) [
      | inl e ↦ rw e (
          ap (λ y. total x (answers_of x answers ++ rest) (check_one y healthy h))
            (sym (str_eq→eq x name e))
          ∙ check_one-same x healthy h (answers_of x answers ++ rest))
      | inr e ↦ rw e (check_one-other name x healthy h (answers_of x answers ++ rest) e)
    ]

run_health_check-total :
    (x : String) (f : Firing) (h : Health) (rest : List Bool)
    → total x rest (run_health_check f h)
      ≡ total x (if f.cycle_in_progress then rest else answers_of x f.answers ++ rest) h
unfolding run_health_check
run_health_check-total x f h rest = elim (Bool-cases f.cycle_in_progress) [
  | inl e ↦ rw e refl
  | inr e ↦ rw e (check_all-total x f.answers h rest)
]

run_health_checks-total :
    (x : String) (fs : List Firing) (h : Health)
    → count_name x (run_health_checks fs h).alerts ≡ total x (history x fs) h
unfolding run_health_checks
run_health_checks-total x [] h = omega (arith, outages_from-nil (streak_of x h.streaks))
run_health_checks-total x (f ∷ fs) h =
    run_health_checks-total x fs (run_health_check f h)
    ∙ run_health_check-total x f h (history x fs)

-- From a start without failures, the number of alerts about an exchange is the number of its
-- outages, each of which begins with a success, or the start, and two failures in a row: a single
-- failed check is never reported, and a long outage only once.
pub run_health_checks-alerts :
    (x : String) (fs : List Firing) (h : Health)
    → streak_of x h.streaks ≡ 0
    → count_name x h.alerts ≡ 0
    → count_name x (run_health_checks fs h).alerts ≡ outages_after true true (history x fs)
run_health_checks-alerts x fs h no_streak no_alert =
    let begun = ap (λ n. outages_from n (history x fs)) no_streak in
    omega (arith, run_health_checks-total x fs h, begun, no_alert)
