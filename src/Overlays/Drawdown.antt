-- ===== src/Overlays/Drawdown.antt =====
-- Which tier the drawdown overlay picks.
use bitcoiners_dca.Prelude.{
  ◌≡◌, ◌⊎◌, inl, inr, refl, true, false, some, List, [], ◌∷◌, arith, All, Any, All-imp, Any-imp,
  Bool-cases,
}
use bitcoiners_dca.Prelude.Int.{pos, ◌≤ℤ◌, ◌<ℤ◌, leb_ℤ}
use bitcoiners_dca.Prelude.Sort.{sort, IsSorted, sort-IsSorted, All-sort, Any-sort}
use bitcoiners_dca.Decimal.{Decimal}
use bitcoiners_dca.Overlays.{
  OverlayContext, OverlayResult, DrawdownTier, unchanged, scaled, by_threshold, first_match,
  apply_drawdown, change_pct,
}

-- The result is that of a tier which the drawdown reaches, and no other tier that it reaches lies
-- deeper.
abbrev pub IsDeepest : Decimal → OverlayResult → List DrawdownTier → DrawdownTier → Type 0
IsDeepest d r tiers t =
    (d ≤ℤ t.threshold_pct)
    × (r ≡ scaled t.multiplier)
    × All (λ (u : DrawdownTier). d ≤ℤ u.threshold_pct → t.threshold_pct ≤ℤ u.threshold_pct) tiers

by_threshold_total : (t u : DrawdownTier) → by_threshold t u ≡ false → by_threshold u t ≡ true
by_threshold_total t u h = ground arith

by_threshold_trans :
    (t u v : DrawdownTier)
    → by_threshold t u ≡ true
    → by_threshold u v ≡ true
    → by_threshold t v ≡ true
by_threshold_trans t u v h k = ground arith

first_match_cases :
    (d : Decimal) (tiers : List DrawdownTier)
    → IsSorted by_threshold tiers
    → (All (λ (u : DrawdownTier). ¬ (d ≤ℤ u.threshold_pct)) tiers
        × (first_match d tiers ≡ unchanged))
      ⊎ Any (IsDeepest d (first_match d tiers) tiers) tiers
first_match_cases d [] s = inl (tt, refl)
first_match_cases d (t ∷ ts) s = elim (Bool-cases (leb_ℤ d t.threshold_pct)) [
  | inl e ↦
      inr (inl (ground arith, rw e, ((λ _. ground arith), All-imp (λ u h _. ground arith) ts s.0)))
  | inr e ↦ elim (first_match_cases d ts s.1) [
    | inl (none_fits, same) ↦ inl (((λ h. ground arith), none_fits), rw e same)
    | inr found ↦
        inr (inr (Any-imp (λ u (h, r, all). (h, rw e r, ((λ k. ground arith), all))) ts found))
  ]
]

apply_drawdown-first_match :
    (tiers : List DrawdownTier) (ctx : OverlayContext) (now ath : Decimal)
    → ctx.current_price_aed ≡ some now
    → ctx.price_ath_aed ≡ some ath
    → pos 0 <ℤ ath
    → apply_drawdown tiers ctx ≡ first_match (change_pct now ath) (sort by_threshold tiers)
unfolding apply_drawdown
apply_drawdown-first_match tiers ctx now ath e f h = ground arith

module _ (d : Decimal) (tiers : List DrawdownTier) where
  first_match-sort :
      let r = first_match d (sort by_threshold tiers) in
      (All (λ (u : DrawdownTier). ¬ (d ≤ℤ u.threshold_pct)) tiers × (r ≡ unchanged))
      ⊎ Any (IsDeepest d r tiers) tiers
  first_match-sort =
      elim (first_match_cases d (sort by_threshold tiers)
        (sort-IsSorted by_threshold by_threshold_total by_threshold_trans tiers)) [
          | inl (none_fits, same) ↦ inl (All-sort by_threshold _ tiers none_fits, same)
          | inr found ↦ inr (
              Any-imp (λ t (h, r, all). (h, r, All-sort by_threshold _ tiers all)) tiers
                (Any-sort by_threshold _ tiers found))
        ]

-- With a price and a positive all-time high, the overlay leaves the amount alone if the drawdown
-- reaches no tier, and else applies the multiplier of a deepest tier among those that it reaches.
-- It never skips the cycle.
pub apply_drawdown-IsDeepest :
    (tiers : List DrawdownTier) (ctx : OverlayContext) (now ath : Decimal)
    → ctx.current_price_aed ≡ some now
    → ctx.price_ath_aed ≡ some ath
    → pos 0 <ℤ ath
    → let d = change_pct now ath in
      let r = apply_drawdown tiers ctx in
      (All (λ (u : DrawdownTier). ¬ (d ≤ℤ u.threshold_pct)) tiers × (r ≡ unchanged))
      ⊎ Any (IsDeepest d r tiers) tiers
apply_drawdown-IsDeepest tiers ctx now ath e f h =
    rw (apply_drawdown-first_match tiers ctx now ath e f h)
      (first_match-sort (change_pct now ath) tiers)
