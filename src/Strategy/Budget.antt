-- ===== src/Strategy/Budget.antt =====
-- The budget arithmetic at the top of src/bitcoiners_dca/core/strategy.py. `none` is the ValueError
-- of an unknown period or frequency (a KeyError in `cycles_per_period`). `int(n or 1)` is taken of
-- an integer: other inputs count as 1 there.
pub mod Cadence
use bitcoiners_dca.Prelude.{
  ℕ, ◌/◌, String, Option, none, some, List, [], ◌∷◌, if◌then◌else◌, ◌>>=◌, ltb, leb, str_eq,
}
use bitcoiners_dca.Prelude.Int.{ℤ, pos, negsuc}
use bitcoiners_dca.Decimal.{Decimal, whole, mul, quotient, quantize_up}

abbrev cycles_per_year : String → Option ℕ
cycles_per_year f =
    if str_eq f "hourly"
    then some 8760
    else if str_eq f "daily"
    then some 365
    else if str_eq f "weekly"
    then some 52
    else if str_eq f "monthly"
    then some 12
    else none

abbrev periods_per_year : String → Option ℕ
periods_per_year p =
    if str_eq p "daily"
    then some 365
    else if str_eq p "weekly"
    then some 52
    else if str_eq p "monthly"
    then some 12
    else if str_eq p "yearly"
    then some 1
    else none

abbrev clean_hour_divisors : List ℕ
clean_hour_divisors = 24 ∷ 12 ∷ 8 ∷ 6 ∷ 4 ∷ 3 ∷ 2 ∷ 1 ∷ []

-- `next(d for d in ... if d <= n)`
abbrev first_at_most : List ℕ → ℕ → ℕ
first_at_most [] n = 0
first_at_most (d ∷ ds) n = if leb d n then d else first_at_most ds n

-- `min(24, max(1, n))`, with 0 read as 1.
unfoldable pub clamp_hours : ℤ → ℕ
clamp_hours (negsuc n) = 1
clamp_hours (pos n) = if ltb n 1 then 1 else if ltb 24 n then 24 else n

unfoldable pub snap_every_n_hours : ℤ → ℕ
unfolding clamp_hours
snap_every_n_hours n = first_at_most clean_hour_divisors (clamp_hours n)

-- `_effective_cycles_per_year`
unfoldable pub effective_cycles_per_year : String → ℤ → Option ℕ
unfolding snap_every_n_hours
effective_cycles_per_year frequency n =
    if str_eq frequency "hourly"
    then some (8760 / snap_every_n_hours n)
    else cycles_per_year frequency

unfoldable pub derive_per_cycle : Decimal → String → String → ℤ → Option Decimal
unfolding effective_cycles_per_year
derive_per_cycle budget period frequency n =
    if str_eq period "cycle"
    then some (quantize_up budget)
    else (periods_per_year period >>= λ periods. effective_cycles_per_year frequency n >>= λ cycles.
        some (quantize_up (quotient (mul budget (whole periods)) (whole cycles))))

unfoldable pub cycles_per_period : String → String → ℤ → Option Decimal
unfolding effective_cycles_per_year
cycles_per_period frequency period n =
    if str_eq period "cycle"
    then some (whole 1)
    else (effective_cycles_per_year frequency n >>= λ cycles.
        periods_per_year period >>= λ periods. some (quotient (whole cycles) (whole periods)))
