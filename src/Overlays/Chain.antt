-- ===== src/Overlays/Chain.antt =====
-- The loop over the overlays in `DCAStrategy.execute`: multipliers compound, the first skip ends
-- it.
use bitcoiners_dca.Prelude.{
  ◌≡◌, refl, ◌∙◌, ap, inl, inr, Bool, false, not, ◌||◌, map, keep, Bool-cases, Option, none, some,
  List, [], ◌∷◌, arith, if◌then◌else◌, ◌>>=◌, ◌==◌, any, Option-cases,
}
use bitcoiners_dca.Prelude.Int.{pos, negsuc, ltb_ℤ}
use bitcoiners_dca.Decimal.{Decimal, unit, whole, mul}
use bitcoiners_dca.Overlays.{OverlayContext, OverlayResult, Overlay, apply}

-- `multiplier != Decimal(1)`
abbrev is_one : Decimal → Bool
is_one (pos n) = n == unit
is_one _ = false

abbrev pub scale_by : Decimal → OverlayResult → Decimal
scale_by amount r = if is_one r.multiplier then amount else mul amount r.multiplier

-- `none` is an exception, `some none` the deliberate skip, and else the amount.
unfoldable pub run_overlays : List Overlay → OverlayContext → Decimal → Option (Option Decimal)
run_overlays [] ctx amount = some (some amount)
run_overlays (o ∷ os) ctx amount = apply o ctx >>= λ r.
    let rest = run_overlays os ctx (scale_by amount r) in if r.skip then some none else rest

-- The results of all overlays, if none of them raises.
unfoldable pub apply_all : List Overlay → OverlayContext → Option (List OverlayResult)
apply_all [] ctx = some []
apply_all (o ∷ os) ctx = apply o ctx >>= λ r. apply_all os ctx >>= λ rs. some (r ∷ rs)

-- The multipliers above or below 1, in order.
abbrev pub changing : List OverlayResult → List Decimal
changing rs = keep (λ m. ltb_ℤ m (whole 1) || ltb_ℤ (whole 1) m) (map (λ r. r.multiplier) rs)

-- The amount times each of them in turn.
abbrev pub product_of : Decimal → List Decimal → Decimal
product_of amount [] = amount
product_of amount (m ∷ ms) = product_of (mul amount m) ms

abbrev scaled : Decimal → List OverlayResult → Decimal
scaled amount [] = amount
scaled amount (r ∷ rs) = scaled (scale_by amount r) rs

is_one-changes : (m : Decimal) → is_one m ≡ not (ltb_ℤ m (whole 1) || ltb_ℤ (whole 1) m)
is_one-changes (pos n) = ground arith
is_one-changes (negsuc n) = ground arith

scaled-product_of :
    (amount : Decimal) (rs : List OverlayResult)
    → scaled amount rs ≡ product_of amount (changing rs)
scaled-product_of amount [] = refl
scaled-product_of amount (r ∷ rs) =
    elim (Bool-cases (ltb_ℤ r.multiplier (whole 1) || ltb_ℤ (whole 1) r.multiplier)) [
      | inl changes ↦
          rw (is_one-changes r.multiplier, changes) (scaled-product_of (mul amount r.multiplier) rs)
      | inr one ↦ rw (is_one-changes r.multiplier, one) (scaled-product_of amount rs)
    ]

run_overlays-scaled :
    (os : List Overlay) (ctx : OverlayContext) (amount : Decimal) (rs : List OverlayResult)
    → apply_all os ctx ≡ some rs
    → run_overlays os ctx amount
      ≡ some (if any (λ r. r.skip) rs then none else some (scaled amount rs))
unfolding run_overlays apply_all
run_overlays-scaled [] ctx amount rs e = ground arith
run_overlays-scaled (o ∷ os) ctx amount rs e = elim (Option-cases (apply o ctx)) [
  | inl raises ↦ ground arith
  | inr (r, er) ↦ elim (Option-cases (apply_all os ctx)) [
    | inl raises ↦ ground arith
    | inr (rest, erest) ↦ ground (arith, run_overlays-scaled os ctx (scale_by amount r) rest)
  ]
]

-- If no overlay raises, the cycle is skipped exactly if some overlay says so, and else the amount
-- is multiplied in turn by every multiplier other than 1, in the configured order.
pub run_overlays-compounded :
    (os : List Overlay) (ctx : OverlayContext) (amount : Decimal) (rs : List OverlayResult)
    → apply_all os ctx ≡ some rs
    → run_overlays os ctx amount
      ≡ some (if any (λ r. r.skip) rs then none else some (product_of amount (changing rs)))
run_overlays-compounded os ctx amount rs e =
    run_overlays-scaled os ctx amount rs e
    ∙ ap (λ a. some (if any (λ r. r.skip) rs then none else some a)) (scaled-product_of amount rs)
