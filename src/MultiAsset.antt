-- ===== src/MultiAsset.antt =====
-- src/bitcoiners_dca/strategies/multi_asset.py: how one cycle's amount is split over several assets
-- by weight.
pub mod Legs
use bitcoiners_dca.Prelude.{String, Bool, List, [], ◌∷◌, map, keep, if◌then◌else◌}
use bitcoiners_dca.Prelude.Int.{leb_ℤ, ltb_ℤ}
use bitcoiners_dca.Decimal.{Decimal, whole, add, mul, quotient, sum_from}
use bitcoiners_dca.Models.{positive}

pub record AssetAllocation : Type 0 where
  pub asset : String
  pub weight : Decimal
  pub min_buy_aed : Decimal

-- An allocation with its amount.
abbrev pub Share : Type 0
Share = AssetAllocation × Decimal

abbrev pub valid : List AssetAllocation → List AssetAllocation
valid allocations = keep (λ a. positive a.weight) allocations

abbrev pub total_weight : List AssetAllocation → Decimal
total_weight allocations = sum_from (whole 0) (map (λ a. a.weight) allocations)

-- The nominal split of the amount, where the weights add up to `weights`.
abbrev pub nominal : Decimal → Decimal → List AssetAllocation → List Share
nominal total weights [] = []
nominal total weights (a ∷ rest) =
    (a, quotient (mul total a.weight) weights) ∷ nominal total weights rest

abbrev pub is_big_enough : Share → Bool
is_big_enough s = leb_ℤ s.0.min_buy_aed s.1

abbrev pub too_small : List Share → List Share
too_small shares = keep (λ s. ltb_ℤ s.1 s.0.min_buy_aed) shares

-- What the dropped legs leave, over the weights of the others.
abbrev pub redistribute : Decimal → Decimal → List Share → List Share
redistribute leftover weights [] = []
redistribute leftover weights ((a, amount) ∷ rest) =
    (a, add amount (quotient (mul leftover a.weight) weights)) ∷ redistribute leftover weights rest

abbrev pub legs_of : List Share → List (String × Decimal)
legs_of shares = map (λ s. (s.0.asset, s.1)) shares

abbrev pub with_leftover : Decimal → List Share → List Share
with_leftover leftover shares =
    if positive leftover
    then redistribute leftover (total_weight (map (λ s. s.0) shares)) shares
    else shares

abbrev pub plan_shares : List Share → List (String × Decimal)
plan_shares shares = legs_of (
    with_leftover (sum_from (whole 0) (map (λ s. s.1) (too_small shares)))
      (keep is_big_enough shares))

-- `plan_cycle`. Without a leg that is big enough, the plan is empty.
unfoldable pub plan_cycle : Decimal → List AssetAllocation → List (String × Decimal)
unfolding quotient mul sum_from add
plan_cycle total allocations =
    plan_shares (nominal total (total_weight (valid allocations)) (valid allocations))
