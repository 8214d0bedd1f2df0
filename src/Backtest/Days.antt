-- ===== src/Backtest/Days.antt =====
-- Which days a replay buys on, and that it ends.
use mathlib.Core.Path.{subst, ap₂}
use bitcoiners_dca.Prelude.{
  ℕ, zero, suc, ◌+◌, ◌-◌, ◌<◌, ◌≡◌, ◌≢◌, refl, ap, inl, inr, Bool, true, false, ◌&&◌, Option, none,
  some, List, [], ◌∷◌, map, keep, All, leb, arith, Bool-cases, some-inj, Option-cases,
  if◌then◌else◌, ◌==◌,
}
use bitcoiners_dca.Prelude.Sort.{sort}
use bitcoiners_dca.Prelude.Int.{magnitude}
use bitcoiners_dca.Decimal.{Decimal, div, quotient}
use bitcoiners_dca.Models.{nonzero}
use bitcoiners_dca.Backtest.{
  Frequency, daily, weekly, monthly, unknown, weekday, BacktestConfig, BacktestCycle, Prices, put,
  put_all, price_lookup, price_on, keys, last_of, should_fire, dips_on, price_with_fee, amount_for,
  cycle_on, Replay, replayed, add_cycle, replay_day, replay_from, run_backtest,
}

-- The days from one on, so many of them.
abbrev pub span : ℕ → ℕ → List ℕ
span first zero = []
span first (suc n) = first ∷ span (suc first) n

abbrev holds : Option Bool → Bool
holds none = false
holds (some b) = b

abbrev is_some : Option Decimal → Bool
is_some none = false
is_some (some p) = true

module _ (day_of_month : ℕ → ℕ) (cfg : BacktestConfig) (by_day : Prices) (end_day : ℕ) where
  -- The schedule fires on the day, and the day has a price.
  abbrev pub is_buying_day : ℕ → Bool
  is_buying_day day =
      holds (should_fire (day_of_month day) day cfg cfg.frequency) && is_some (price_on day by_day)

  -- The replay is over, and its cycles are on the days listed.
  abbrev pub BuysOn : Replay → List ℕ → Type 0
  BuysOn r days = (cs : List BacktestCycle) × (r ≡ replayed cs) × (map (λ c. c.day) cs ≡ days)

  fires :
      (m day : ℕ) (f : Frequency) → f ≢ unknown → (b : Bool) × (should_fire m day cfg f ≡ some b)
  fires m day daily known = (true, refl)
  fires m day weekly known = (weekday day == cfg.day_of_week, refl)
  fires m day monthly known = (m == 1, refl)
  fires m day unknown known = absurd (known refl)

  div_by : (a b : Decimal) → nonzero b ≡ true → div a b ≡ some (quotient a b)
  unfolding div
  div_by a b h = elim (Bool-cases (magnitude b == 0)) [
    | inl e ↦ absurd (ground arith)
    | inr e ↦ rw e refl
  ]

  cycle_on-some :
      (day : ℕ) (price : Decimal)
      → nonzero (price_with_fee cfg price) ≡ true
      → (c : BacktestCycle) × (cycle_on day_of_month cfg by_day end_day day price ≡ some c)
        × (c.day ≡ day)
  unfolding cycle_on
  cycle_on-some day price h =
      let amount = amount_for cfg (dips_on day_of_month cfg by_day end_day day price) in
      rw (div_by amount (price_with_fee cfg price) h) (_, refl, refl)

  add_cycle-BuysOn :
      (c : BacktestCycle) (r : Replay) (days : List ℕ) (day : ℕ)
      → c.day ≡ day
      → BuysOn r days
      → BuysOn (add_cycle day_of_month cfg by_day end_day (some c) r) (day ∷ days)
  add_cycle-BuysOn c r days day same (cs, e, listed) = (
    c ∷ cs,
    ap (add_cycle day_of_month cfg by_day end_day (some c)) e,
    ap₂ (λ d ds. d ∷ ds) same listed,
  )

  module _ (known : cfg.frequency ≢ unknown)
      (priced : (day : ℕ) (p : Decimal)
        → price_on day by_day ≡ some p
        → nonzero (price_with_fee cfg p) ≡ true) where
    replay_day-BuysOn :
        (day : ℕ) (r : Replay) (days : List ℕ)
        → BuysOn r days
        → BuysOn
            (replay_day day_of_month cfg by_day end_day
              (should_fire (day_of_month day) day cfg cfg.frequency)
              (price_on day by_day)
              day
              r)
            (if is_buying_day day then day ∷ days else days)
    replay_day-BuysOn day r days h =
        let (b, e) = fires (day_of_month day) day cfg.frequency known in
        elim (Bool-cases b) [
          | inl firing ↦ elim (Option-cases (price_on day by_day)) [
            | inl absent ↦ rw (e, firing, absent) h
            | inr (p, there) ↦
                let (c, made, same) = cycle_on-some day p (priced day p there) in
                rw (e, firing, there, made) (add_cycle-BuysOn c r days day same h)
          ]
          | inr idle ↦ rw (e, idle) h
        ]

    replay_from-BuysOn :
        (fuel current : ℕ)
        → end_day < current + fuel
        → BuysOn
            (replay_from day_of_month cfg by_day end_day fuel current)
            (keep is_buying_day (span current (end_day + 1 - current)))
    unfolding replay_from
    replay_from-BuysOn zero current enough =
        let over : leb current end_day ≡ false = ground arith in
        let nothing_left : end_day + 1 - current ≡ 0 = omega arith in
        rw (over, nothing_left) ([], refl, refl)
    replay_from-BuysOn (suc fuel) current enough = elim (Bool-cases (leb current end_day)) [
      | inl more ↦
          let left : end_day + 1 - current ≡ suc (end_day + 1 - suc current) = ground arith in
          rw (more, left)
            (replay_day-BuysOn current _ _ (replay_from-BuysOn fuel (suc current) (omega arith)))
      | inr over ↦
          let nothing_left : end_day + 1 - current ≡ 0 = ground arith in
          rw (over, nothing_left) ([], refl, refl)
    ]

module _ (P : Decimal → Type 0) where
  abbrev Priced : Prices → Type 0
  Priced prices = All (λ q. P q.1) prices

  put-All :
      (day : ℕ) (price : Decimal) (prices : Prices)
      → P price
      → Priced prices
      → Priced (put day price prices)
  unfolding put
  put-All day price [] h hs = (h, tt)
  put-All day price ((d, p) ∷ rest) h hs = elim (Bool-cases (day == d)) [
    | inl e ↦ rw e (h, hs.1)
    | inr e ↦ rw e (hs.0, put-All day price rest h hs.1)
  ]

  put_all-All :
      (points prices : Prices) → Priced points → Priced prices → Priced (put_all points prices)
  unfolding put_all
  put_all-All [] prices h hs = hs
  put_all-All ((day, price) ∷ points) prices h hs =
      put_all-All points (put day price prices) h.1 (put-All day price prices h.0 hs)

  price_on-All :
      (prices : Prices) (day : ℕ) (p : Decimal) → Priced prices → price_on day prices ≡ some p → P p
  price_on-All [] day p h e = absurd (ground arith)
  price_on-All ((d, q) ∷ rest) day p h e = elim (Bool-cases (day == d)) [
    | inl same ↦ subst P (some-inj (rw same at e)) h.0
    | inr differs ↦ price_on-All rest day p h.1 (rw differs at e)
  ]

-- Under a known frequency, and where no price with its fee is 0, the replay ends within its fuel
-- and without an exception: from the first day with a price to the last, it buys once on each day
-- on which the schedule fires and that has a price, in order, and on no other.
pub run_backtest-BuysOn :
    (day_of_month : ℕ → ℕ) (cfg : BacktestConfig) (points : Prices) (first : ℕ) (later : List ℕ)
    → cfg.frequency ≢ unknown
    → All (λ q. nonzero (price_with_fee cfg q.1) ≡ true) points
    → sort leb (keys (price_lookup points)) ≡ first ∷ later
    → BuysOn day_of_month cfg
        (price_lookup points)
        (last_of first later)
        (run_backtest day_of_month cfg points).replay
        (keep
          (is_buying_day day_of_month cfg (price_lookup points) (last_of first later))
          (span first (last_of first later + 1 - first)))
unfolding run_backtest price_lookup
run_backtest-BuysOn day_of_month cfg points first later known priced sorted =
    let P = λ (p : Decimal). nonzero (price_with_fee cfg p) ≡ true in
    let by_day = price_lookup points in
    let end_day = last_of first later in
    rw sorted (
      replay_from-BuysOn day_of_month cfg by_day end_day known
        (λ day p there. price_on-All P by_day day p (put_all-All P points [] priced tt) there)
        (end_day + 1 - first) first (omega arith))
