-- ===== src/Strategy/Budget/Cadence.antt =====
-- The snapped cadence, by a table over the 24 values that the clamp leaves.
use bitcoiners_dca.Prelude.{
  ◌+◌, inl, inr, Bool-cases, ℕ, zero, suc, ◌%◌, ◌≤◌, ◌<◌, ◌≡◌, refl, Bool, true, ◌&&◌, ◌||◌, not,
  arith, leb, ◌==◌,
}
use bitcoiners_dca.Prelude.Int.{ℤ}
use bitcoiners_dca.Strategy.Budget.{
  clamp_hours, snap_every_n_hours, first_at_most, clean_hour_divisors,
}

-- The test holds of `count` numbers from `first` on.
abbrev table_holds : (ℕ → Bool) → ℕ → ℕ → Bool
table_holds test first zero = true
table_holds test first (suc count) = test first && table_holds test (first + 1) count

table_holds-at :
    (test : ℕ → Bool) (first count m : ℕ)
    → table_holds test first count ≡ true
    → first ≤ m
    → m < first + count
    → test m ≡ true
table_holds-at test first zero m all lo hi = absurd (omega arith)
table_holds-at test first (suc count) m all lo hi = elim (Bool-cases (m == first)) [
  | inl here ↦ let same : m ≡ first = ground arith in rw same (ground arith)
  | inr later ↦ table_holds-at test (first + 1) count m (ground arith) (ground arith) (omega arith)
]

abbrev snapped : ℕ → ℕ
snapped m = first_at_most clean_hour_divisors m

abbrev no_greater : ℕ → ℕ → ℕ → Bool
no_greater m s d = not (24 % d == 0) || (not (leb d m) || leb d s)

-- For m from 1 to 24: s lies from 1 to m, divides 24, and no greater d up to m does.
abbrev row_of : ℕ → ℕ → Bool
row_of m s = m == 0 || (leb 1 s && (leb s m && (24 % s == 0 && table_holds (no_greater m s) 0 25)))

abbrev row : ℕ → Bool
row m = row_of m (snapped m)

table : table_holds row 0 25 ≡ true
table = refl

clamp_hours_bounds : (n : ℤ) → (1 ≤ clamp_hours n) × (clamp_hours n ≤ 24)
unfolding clamp_hours
clamp_hours_bounds n = ground arith

no_greater_parts : (m s d : ℕ) → no_greater m s d ≡ true → 24 % d ≡ 0 → d ≤ m → d ≤ s
no_greater_parts m s d h = ground arith

row_split :
    (m s : ℕ) (b : Bool)
    → (m == 0 || (leb 1 s && (leb s m && (24 % s == 0 && b)))) ≡ true
    → 1 ≤ m
    → (1 ≤ s) × (s ≤ m) × (24 % s ≡ 0) × (b ≡ true)
row_split m s b h lo = ground arith

row_parts :
    (m s d : ℕ)
    → row_of m s ≡ true
    → 1 ≤ m
    → m ≤ 24
    → (1 ≤ s) × (s ≤ m) × (24 % s ≡ 0) × (24 % d ≡ 0 → d ≤ m → d ≤ s)
row_parts m s d h lo hi =
    let (a, b, c, e) = split in
    (
      a,
      b,
      c,
      λ z le.
          no_greater_parts m s d
            (table_holds-at (no_greater m s) 0 25 d e (omega arith) (omega arith)) z le,
    )
  where
    split : (1 ≤ s) × (s ≤ m) × (24 % s ≡ 0) × (table_holds (no_greater m s) 0 25 ≡ true)
    split = row_split m s (table_holds (no_greater m s) 0 25) h lo

-- The snapped cadence is a divisor of 24 from 1 to the clamped cadence, and every divisor of 24
-- that is at most the clamped cadence is at most the snapped one.
pub snap_every_n_hours-greatest :
    (n : ℤ) (d : ℕ)
    → 24 % d ≡ 0
    → d ≤ clamp_hours n
    → let s = snap_every_n_hours n in (1 ≤ s) × (s ≤ clamp_hours n) × (24 % s ≡ 0) × (d ≤ s)
unfolding snap_every_n_hours
snap_every_n_hours-greatest n d divides small =
    let (lo, hi) = clamp_hours_bounds n in
    let (one, le, clean, greatest) =
      row_parts (clamp_hours n) _ d
        (table_holds-at row 0 25 (clamp_hours n) table (omega arith) (omega arith)) lo hi in
    (one, le, clean, greatest divides small)
