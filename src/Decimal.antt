-- ===== src/Decimal.antt =====
-- `decimal.Decimal` under Python's default context: every result is rounded to 28 significant
-- digits, half to even. A finite decimal is a whole number of units of 10 ^ -60, so the order is
-- that of the integers and is exact. A result below 10 ^ -32 has its digits cut at that unit.
-- `none` is the exception of a division by zero. NaN, signed zeros and the traps for results beyond
-- 10 ^ 999999 are left out.
pub mod Rounding
use bitcoiners_dca.Prelude.{
  ℕ, zero, suc, ◌+◌, ◌-◌, ◌*◌, ◌/◌, ◌%◌, ◌^◌, Option, none, some, List, [], ◌∷◌, ltb, ◌==◌,
  if◌then◌else◌,
}
use bitcoiners_dca.Prelude.Int.{ℤ, pos, signed, is_neg, signs_differ, magnitude, ◌+ℤ◌, ◌-ℤ◌, ltb_ℤ}

abbrev pub Decimal : Type 0
Decimal = ℤ

-- One, in units.
abbrev pub unit : ℕ
unit = 10 ^ 60

-- The literal n * 10 ^ -places.
abbrev pub literal : ℕ → ℕ → Decimal
literal n places = pos (n * 10 ^ (60 - places))

-- The whole number n.
abbrev pub whole : ℕ → Decimal
whole n = pos (n * unit)

-- n / d to the nearest whole number, a tie to the even one.
unfoldable pub round_half_even : ℕ → ℕ → ℕ
round_half_even n d =
    let q = n / d in
    let twice = 2 * (n % d) in if ltb twice d then q else if ltb d twice then q + 1 else q + q % 2

-- n / d to the nearest whole number, a tie away from zero.
unfoldable pub round_half_up : ℕ → ℕ → ℕ
round_half_up n d = if ltb (2 * (n % d)) d then n / d else n / d + 1

abbrev pub digit_limit : ℕ
digit_limit = 10 ^ 28

-- The least power of ten, from `s` on, by which n / d has to be divided to have 28 digits.
unfoldable pub digit_step : ℕ → ℕ → ℕ → ℕ → ℕ
digit_step zero n d s = s
digit_step (suc fuel) n d s =
    let wider = digit_step fuel n d (10 * s) in if ltb (n / (d * s)) digit_limit then s else wider

-- n / d rounded to 28 significant digits. The fuel is `n` itself, since n < 10 ^ n.
unfoldable pub round_digits : ℕ → ℕ → ℕ
unfolding round_half_even digit_step
round_digits n d = let s = digit_step n n d 1 in round_half_even n (d * s) * s

unfoldable pub add : Decimal → Decimal → Decimal
unfolding round_digits ◌+ℤ◌
add a b = let c = a +ℤ b in signed (is_neg c) (round_digits (magnitude c) 1)

unfoldable pub sub : Decimal → Decimal → Decimal
unfolding round_digits ◌-ℤ◌
sub a b = let c = a -ℤ b in signed (is_neg c) (round_digits (magnitude c) 1)

unfoldable pub mul : Decimal → Decimal → Decimal
unfolding round_digits
mul a b =
    signed (signs_differ (is_neg a) (is_neg b)) (round_digits (magnitude a * magnitude b) unit)

-- a / b for a divisor that is not zero.
unfoldable pub quotient : Decimal → Decimal → Decimal
unfolding round_digits
quotient a b =
    signed (signs_differ (is_neg a) (is_neg b)) (round_digits (magnitude a * unit) (magnitude b))

unfoldable pub div : Decimal → Decimal → Option Decimal
unfolding quotient
div a b = if magnitude b == 0 then none else some (quotient a b)

-- Two decimal places, in units.
abbrev pub cent : ℕ
cent = 10 ^ 58

-- `quantize(Decimal("0.01"))`, to the nearest cent, a tie to the even one.
unfoldable pub quantize : Decimal → Decimal
unfolding round_half_even
quantize a = signed (is_neg a) (round_half_even (magnitude a) cent * cent)

-- `quantize(Decimal("0.01"), rounding=ROUND_HALF_UP)`
unfoldable pub quantize_up : Decimal → Decimal
unfolding round_half_up
quantize_up a = signed (is_neg a) (round_half_up (magnitude a) cent * cent)

-- The built-in `min` and `max` return the first of two equal arguments.
abbrev pub min_of : Decimal → Decimal → Decimal
min_of a b = if ltb_ℤ b a then b else a

abbrev pub max_of : Decimal → Decimal → Decimal
max_of a b = if ltb_ℤ a b then b else a

-- `sum(..., Decimal(0))`
unfoldable pub sum_from : Decimal → List Decimal → Decimal
unfolding add
sum_from acc [] = acc
sum_from acc (a ∷ rest) = sum_from (add acc a) rest
