-- ===== src/MarketData/Nearest.antt =====
-- The price that stands for a day without one.
use mathlib.Core.Path.{subst}
use bitcoiners_dca.Prelude.{
  ℕ, zero, suc, ◌+◌, ◌-◌, ◌≤◌, ◌⊎◌, ◌<◌, ◌≡◌, refl, sym, Option, none, some, List, Option-cases,
  inl, inr, arith,
}
use bitcoiners_dca.Decimal.{Decimal}
use bitcoiners_dca.MarketData.{PricePoint, price_on, or_rest, nearest_from, nearest_price}

-- No price so many days before or after the day.
abbrev pub Bare : List PricePoint → ℕ → ℕ → Type 0
Bare points target k = (price_on points (target - k) ≡ none) × (price_on points (target + k) ≡ none)

-- The price of a day at the distance `o`, the earlier of the two if both have one.
abbrev pub PriceAt : List PricePoint → ℕ → ℕ → Decimal → Type 0
PriceAt points target o price =
    or_rest (price_on points (target - o)) (price_on points (target + o)) ≡ some price

-- From the offset `lo` on and below `hi`: no day has a price, or the price is that of the nearest.
abbrev pub IsNearest : List PricePoint → ℕ → ℕ → ℕ → Option Decimal → Type 0
IsNearest points target lo hi none = (k : ℕ) → lo ≤ k → k < hi → Bare points target k
IsNearest points target lo hi (some price) =
    (o : ℕ) × (lo ≤ o)
    × (o < hi)
    × PriceAt points target o price
    × ((k : ℕ) → lo ≤ k → k < o → Bare points target k)

above : (lo k : ℕ) → lo ≤ k → (k ≡ lo) ⊎ (suc lo ≤ k)
above lo k h = ground arith

Bare-from :
    (points : List PricePoint) (target lo hi : ℕ)
    → Bare points target lo
    → ((k : ℕ) → suc lo ≤ k → k < hi → Bare points target k)
    → (k : ℕ) → lo ≤ k
    → k < hi
    → Bare points target k
Bare-from points target lo hi bare later k a b = elim (above lo k a) [
  | inl e ↦ subst (Bare points target) (sym e) bare
  | inr c ↦ later k c b
]

outer :
    (points : List PricePoint) (target lo hi : ℕ) (rest : Option Decimal)
    → Bare points target lo
    → IsNearest points target (suc lo) hi rest
    → IsNearest points target lo hi rest
outer points target lo hi none bare near = Bare-from points target lo hi bare near
outer points target lo hi (some price) bare (o, above_lo, below, found, later) =
    (o, omega arith, below, found, Bare-from points target lo o bare later)

-- A step outwards: either this offset has a price, or the rest is nearest from the next one on.
widen :
    (points : List PricePoint) (target lo hi : ℕ) (rest : Option Decimal)
    → lo < hi
    → IsNearest points target (suc lo) hi rest
    → IsNearest points target lo hi
        (or_rest (price_on points (target - lo)) (or_rest (price_on points (target + lo)) rest))
widen points target lo hi rest h near = elim (Option-cases (price_on points (target - lo))) [
  | inr (p, e) ↦ rw e (lo, omega arith, h, rw e refl, λ k a b. absurd (omega arith))
  | inl e ↦ elim (Option-cases (price_on points (target + lo))) [
    | inr (p, f) ↦ rw (e, f) (lo, omega arith, h, rw (e, f) refl, λ k a b. absurd (omega arith))
    | inl f ↦ rw (e, f) (outer points target lo hi rest (e, f) near)
  ]
]

nearest_from-IsNearest :
    (points : List PricePoint) (target left lo hi : ℕ)
    → left + lo ≡ hi
    → IsNearest points target lo hi (nearest_from points target left lo)
unfolding nearest_from
nearest_from-IsNearest points target zero lo hi e = λ k a b. absurd (omega arith)
nearest_from-IsNearest points target (suc left) lo hi e =
    widen points target lo hi _ (omega arith)
      (nearest_from-IsNearest points target left (suc lo) hi (omega arith))

-- The price that stands for a day is that of the nearest day with a price, at most three days off,
-- the earlier one of two; and there is none only if none of these days has a price.
pub nearest_price-IsNearest :
    (points : List PricePoint) (target : ℕ)
    → IsNearest points target 0 4 (nearest_price points target)
unfolding nearest_price
nearest_price-IsNearest points target = nearest_from-IsNearest points target 4 0 4 refl
