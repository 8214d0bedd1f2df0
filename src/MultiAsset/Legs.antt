-- ===== src/MultiAsset/Legs.antt =====
-- Which assets a plan buys.
use bitcoiners_dca.Prelude.{
  ◌≡◌, refl, ◌∙◌, ap, inl, inr, String, List, [], ◌∷◌, map, keep, Bool-cases,
}
use bitcoiners_dca.Decimal.{Decimal}
use bitcoiners_dca.Models.{positive}
use bitcoiners_dca.MultiAsset.{
  AssetAllocation, Share, valid, total_weight, nominal, is_big_enough, redistribute, legs_of,
  with_leftover, plan_cycle,
}

abbrev pub assets_of : List Share → List String
assets_of shares = map (λ s. s.0.asset) shares

legs_of-assets : (shares : List Share) → map (λ l. l.0) (legs_of shares) ≡ assets_of shares
legs_of-assets [] = refl
legs_of-assets (s ∷ shares) = ap (λ rest. s.0.asset ∷ rest) (legs_of-assets shares)

redistribute-assets :
    (leftover weights : Decimal) (shares : List Share)
    → assets_of (redistribute leftover weights shares) ≡ assets_of shares
redistribute-assets leftover weights [] = refl
redistribute-assets leftover weights (s ∷ shares) =
    ap (λ rest. s.0.asset ∷ rest) (redistribute-assets leftover weights shares)

with_leftover-assets :
    (leftover : Decimal) (shares : List Share)
    → assets_of (with_leftover leftover shares) ≡ assets_of shares
with_leftover-assets leftover shares = elim (Bool-cases (positive leftover)) [
  | inl e ↦ rw e (redistribute-assets leftover (total_weight (map (λ s. s.0) shares)) shares)
  | inr e ↦ rw e refl
]

-- A plan buys exactly the assets of positive weight whose nominal share reaches their minimum, in
-- the order of the allocations, each once; what the others leave changes only the amounts.
pub plan_cycle-assets :
    (total : Decimal) (allocations : List AssetAllocation)
    → map (λ l. l.0) (plan_cycle total allocations)
      ≡ assets_of (
          keep is_big_enough (nominal total (total_weight (valid allocations)) (valid allocations)))
unfolding plan_cycle
plan_cycle-assets total allocations = legs_of-assets _ ∙ with_leftover-assets _ _
