-- ===== src/Decimal/Rounding.antt =====
-- What rounding keeps: how near the rounded value is, and the sign and order of results.
use bitcoiners_dca.Prelude.{
  ℕ, ◌+◌, ◌*◌, ◌≤◌, ◌<◌, ◌≡◌, refl, ◌⊎◌, inl, inr, zero, suc, ◌/◌, ◌^◌, ltb, Bool-cases, none, some,
  arith,
}
use bitcoiners_dca.Prelude.Int.{pos, ◌≤ℤ◌}
use bitcoiners_dca.Decimal.{
  unit, digit_limit, digit_step, round_digits, mul, quantize, literal, round_half_even,
  round_half_up, add, div,
}

div_third : div (literal 1 0) (literal 3 0) ≡ some (literal 3333333333333333333333333333 28)
unfolding div
div_third = refl

div_zero : div (literal 1 0) (literal 0 0) ≡ none
unfolding div
div_zero = refl

add_rounds : add (literal 1 0) (literal 15 28) ≡ literal 1_000_000_000_000_000_000_000_000_002 27
unfolding add
add_rounds = refl

-- The rounded value lies within half a step of the exact one.
pub round_half_even_near :
    (n d : ℕ)
    → 0 < d
    → (2 * (round_half_even n d * d) ≤ 2 * n + d) × (2 * n ≤ 2 * (round_half_even n d * d) + d)
unfolding round_half_even
round_half_even_near n d h = grind arith

pub round_half_up_near :
    (n d : ℕ)
    → 0 < d
    → (2 * (round_half_up n d * d) ≤ 2 * n + d) × (2 * n ≤ 2 * (round_half_up n d * d) + d)
unfolding round_half_up
round_half_up_near n d h = grind arith

-- Digits are dropped only of a quotient that has more than 28 of them.
abbrev Drops : ℕ → ℕ → ℕ → Type 0
Drops n d s = (s ≡ 1) ⊎ (10 ^ 27 * (d * s) ≤ n)

quotient_le : (n m k : ℕ) → 0 < m → k ≤ n / m → k * m ≤ n
quotient_le n m k h l = grind arith

Drops-next : (n d s : ℕ) → 0 < d * s → digit_limit ≤ n / (d * s) → Drops n d (10 * s)
Drops-next n d s h l = inr (let k = quotient_le n (d * s) digit_limit h l in grind arith)

digit_step-Drops :
    (fuel n d s : ℕ)
    → 0 < d
    → 0 < s
    → Drops n d s
    → Drops n d (digit_step fuel n d s) × (0 < digit_step fuel n d s)
unfolding digit_step
digit_step-Drops zero n d s hd hs h = (h, hs)
digit_step-Drops (suc fuel) n d s hd hs h = elim (Bool-cases (ltb (n / (d * s)) digit_limit)) [
  | inl e ↦ rw e (h, hs)
  | inr e ↦
      let full : digit_limit ≤ n / (d * s) = ground arith in
      rw e
        (digit_step-Drops fuel n d (10 * s) hd (omega arith) (Drops-next n d s (grind arith) full))
]

scale_back :
    (q d s n : ℕ)
    → Drops n d s
    → 2 * (q * (d * s)) ≤ 2 * n + d * s
    → 2 * 10 ^ 27 * (q * s * d) ≤ 2 * 10 ^ 27 * n + 10 ^ 27 * d + n
scale_back q d s n h k =
    let same : q * s * d ≡ q * (d * s) = grind arith in
    let step : 10 ^ 27 * (d * s) ≤ 10 ^ 27 * d + n = elim h [
      | inl one ↦ rw one (omega arith)
      | inr wide ↦ omega arith
    ] in
    omega arith

-- The rounded quotient exceeds the exact one by half a unit, or by half of its last digit.
pub round_digits_le :
    (n d : ℕ) → 0 < d → 2 * 10 ^ 27 * (round_digits n d * d) ≤ 2 * 10 ^ 27 * n + 10 ^ 27 * d + n
unfolding round_digits
round_digits_le n d h =
    let (drops, s_pos) = digit_step-Drops n n d 1 h (omega arith) (inl refl) in
    let s = digit_step n n d 1 in
    scale_back (round_half_even n (d * s)) d s n drops
      (round_half_even_near n (d * s) (grind arith)).0

-- Of a positive balance, 99% rounded to the cent stays within any ceiling of one or more that the
-- balance keeps to.
pub quantize-mul_le : (b c : ℕ) → b ≤ c → unit ≤ c → quantize (mul (pos b) (literal 99 2)) ≤ℤ pos c
unfolding quantize mul
quantize-mul_le b c h k =
    let r = round_digits (b * (99 * 10 ^ 58)) unit in
    let near = round_digits_le (b * (99 * 10 ^ 58)) unit (omega arith) in
    let cents = (round_half_even_near r (10 ^ 58) (omega arith)).0 in omega arith

-- The exact quotient exceeds the rounded one by as little.
scale_up :
    (q d s n : ℕ)
    → Drops n d s
    → 2 * n ≤ 2 * (q * (d * s)) + d * s
    → 2 * 10 ^ 27 * n ≤ 2 * 10 ^ 27 * (q * s * d) + 10 ^ 27 * d + n
scale_up q d s n h k =
    let same : q * s * d ≡ q * (d * s) = grind arith in
    let step : 10 ^ 27 * (d * s) ≤ 10 ^ 27 * d + n = elim h [
      | inl one ↦ rw one (omega arith)
      | inr wide ↦ omega arith
    ] in
    omega arith

pub round_digits_ge :
    (n d : ℕ) → 0 < d → 2 * 10 ^ 27 * n ≤ 2 * 10 ^ 27 * (round_digits n d * d) + 10 ^ 27 * d + n
unfolding round_digits
round_digits_ge n d h =
    let (drops, s_pos) = digit_step-Drops n n d 1 h (omega arith) (inl refl) in
    let s = digit_step n n d 1 in
    scale_up (round_half_even n (d * s)) d s n drops
      (round_half_even_near n (d * s) (grind arith)).1

-- A surcharge of one percent does not fall below the amount.
pub mul_surcharge : (n : ℕ) → pos n ≤ℤ mul (pos n) (literal 101 2)
unfolding mul
mul_surcharge n =
    let r = round_digits (n * (101 * 10 ^ 58)) unit in
    let near = round_digits_ge (n * (101 * 10 ^ 58)) unit (omega arith) in omega arith
