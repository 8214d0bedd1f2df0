-- ===== src/Dashboard/StrategyForm/Saving.antt =====
-- What the form refuses to save, and that what it saves is what will be loaded.
use mathlib.Core.Path.{subst}
use bitcoiners_dca.Prelude.{
  ◌≡◌, refl, ap, ◌⊎◌, inl, inr, true, Option, none, some, arith, Bool-cases,
}
use bitcoiners_dca.Prelude.Int.{pos, ◌≤ℤ◌, ◌<ℤ◌, ltb_ℤ, leb_ℤ}
use bitcoiners_dca.Decimal.{Decimal, whole, literal}
use bitcoiners_dca.Strategy.Budget.{derive_per_cycle}
use bitcoiners_dca.Config.{backfill_budget}
use bitcoiners_dca.Config.Budgets.{backfill_budget-agrees}
use bitcoiners_dca.Dashboard.{clamp_multiplier, parse_risk_cap}
use bitcoiners_dca.Dashboard.StrategyForm.{
  Budget, finite, infinite_or_nan, StrategyForm, StrategyPatch, saved, refused_budget,
  refused_ceiling, refused_without_cap, hours_of, is_set, judge_amount, judge_budget, patch_for,
  strategy_save, section_of,
}

-- A cap that is set and positive.
abbrev pub IsPositive : Option Decimal → Type 0
IsPositive none = ⊥
IsPositive (some cap) = pos 0 <ℤ cap

abbrev pub Within : Decimal → Decimal → Decimal → Type 0
Within lo hi m = (lo ≤ℤ m) × (m ≤ℤ hi)

-- The patch's budget is positive, its amount is what the budget stands for, at most 100,000 AED,
-- and above 5,000 AED only under a positive cap of a single buy; the multipliers are tame.
pub record IsSane (p : StrategyPatch) : Type 0 where
  pub budget_pos : pos 0 <ℤ p.budget_amount
  pub derived :
      derive_per_cycle p.budget_amount p.budget_period p.frequency p.every_n_hours
      ≡ some p.amount_aed
  pub ceiling : p.amount_aed ≤ℤ whole 100_000
  pub confirmed : (p.amount_aed ≤ℤ whole 5000) ⊎ IsPositive p.max_single_buy_aed
  pub dip_tame : Within (whole 1) (whole 5) p.dip_multiplier
  pub boost_tame : Within (literal 5 1) (whole 2) p.boost_multiplier
  pub dampen_tame : Within (literal 5 1) (whole 2) p.dampen_multiplier

clamp_multiplier_bounds :
    (lo hi : Decimal) (v : Option Decimal)
    → lo ≤ℤ whole 1
    → whole 1 ≤ℤ hi
    → Within lo hi (clamp_multiplier lo hi v)
unfolding clamp_multiplier
clamp_multiplier_bounds lo hi none a b = (a, b)
clamp_multiplier_bounds lo hi (some v) a b = ground arith

parse_risk_cap_pos :
    (raw : Option Decimal) → is_set (parse_risk_cap raw) ≡ true → IsPositive (parse_risk_cap raw)
unfolding parse_risk_cap
parse_risk_cap_pos none h = cc
parse_risk_cap_pos (some v) h = ground arith

patch_for-IsSane :
    (f : StrategyForm) (budget amount : Decimal)
    → pos 0 <ℤ budget
    → derive_per_cycle budget f.budget_period f.frequency (hours_of f.every_n_hours) ≡ some amount
    → amount ≤ℤ whole 100_000
    → (amount ≤ℤ whole 5000) ⊎ IsPositive (parse_risk_cap f.max_single_buy_aed)
    → IsSane (patch_for f budget amount)
unfolding patch_for
patch_for-IsSane f budget amount b d c k = record {
  budget_pos = b;
  derived = d;
  ceiling = c;
  confirmed = k;
  dip_tame =
      clamp_multiplier_bounds (whole 1) (whole 5) f.dip_multiplier (omega arith) (omega arith);
  boost_tame =
      clamp_multiplier_bounds (literal 5 1) (whole 2) f.boost_multiplier (omega arith)
        (omega arith);
  dampen_tame =
      clamp_multiplier_bounds (literal 5 1) (whole 2) f.dampen_multiplier (omega arith)
        (omega arith);
}

-- What is saved is the patch for the budget, and it passed the tests.
abbrev pub Passes : StrategyForm → Decimal → StrategyPatch → Type 0
Passes f budget p =
    (amount : Decimal) × (derive_per_cycle budget f.budget_period f.frequency
        (hours_of f.every_n_hours)
      ≡ some amount)
    × (amount ≤ℤ whole 100_000)
    × ((amount ≤ℤ whole 5000) ⊎ IsPositive (parse_risk_cap f.max_single_buy_aed))
    × (patch_for f budget amount ≡ p)

saved-inj : {p q : StrategyPatch} → saved p ≡ saved q → p ≡ q
saved-inj {p = p} e = ap (λ o. elim o [ saved x ↦ x | _ ↦ p ]) e

judge_amount-Passes :
    (f : StrategyForm) (budget : Decimal) (o : Option Decimal) (p : StrategyPatch)
    → derive_per_cycle budget f.budget_period f.frequency (hours_of f.every_n_hours) ≡ o
    → judge_amount f budget o ≡ saved p
    → Passes f budget p
judge_amount-Passes f budget none p d h = absurd (cc)
judge_amount-Passes f budget (some amount) p d h =
    elim (Bool-cases (ltb_ℤ (whole 100_000) amount)) [
      | inl high ↦ absurd (let h' : refused_ceiling ≡ saved p = rw high at h in cc)
      | inr low ↦
          let h1 = rw low at h in
          elim (Bool-cases (is_set (parse_risk_cap f.max_single_buy_aed))) [
            | inl set ↦ (
              amount,
              d,
              ground arith,
              inr (parse_risk_cap_pos _ set),
              elim (Bool-cases (ltb_ℤ (whole 5000) amount)) [
                | inl big ↦ saved-inj (rw (big, set) at h1)
                | inr small ↦ saved-inj (rw small at h1)
              ],
            )
            | inr unset ↦ elim (Bool-cases (ltb_ℤ (whole 5000) amount)) [
              | inl big ↦
                  absurd (let h2 : refused_without_cap ≡ saved p = rw (big, unset) at h1 in cc)
              | inr small ↦
                  (amount, d, ground arith, inl (ground arith), saved-inj (rw small at h1))
            ]
          ]
    ]

IsSane-and_stable :
    (f : StrategyForm) (budget : Decimal) (p : StrategyPatch)
    → pos 0 <ℤ budget
    → Passes f budget p
    → IsSane p × (backfill_budget (section_of p) ≡ section_of p)
unfolding patch_for
IsSane-and_stable f budget p b (amount, d, c, k, e) =
    subst (λ x. IsSane x × (backfill_budget (section_of x) ≡ section_of x)) e
      (
        patch_for-IsSane f budget amount b d c k,
        (backfill_budget-agrees (section_of (patch_for f budget amount)) budget amount refl d).0,
      )

pub on_budget :
    (f : StrategyForm) (b : Budget) (p : StrategyPatch)
    → judge_budget f b ≡ saved p
    → (budget : Decimal) × (pos 0 <ℤ budget) × Passes f budget p
on_budget f infinite_or_nan p h = absurd (cc)
on_budget f (finite budget) p h = elim (Bool-cases (leb_ℤ budget (pos 0))) [
  | inl low ↦ absurd (let h' : refused_budget ≡ saved p = rw low at h in cc)
  | inr high ↦ (budget, ground arith, judge_amount-Passes f budget _ p refl (rw high at h))
]

-- What the form saves has a positive budget, the amount per cycle that this budget stands for, at
-- most 100,000 AED, and above 5,000 AED only with a positive cap of a single buy; its multipliers
-- are within their bands. And it is loaded as it was saved: no later load changes the amount.
pub strategy_save-IsSane :
    (f : StrategyForm) (p : StrategyPatch)
    → strategy_save f ≡ saved p
    → IsSane p × (backfill_budget (section_of p) ≡ section_of p)
unfolding strategy_save
strategy_save-IsSane f p h =
    let (budget, b, passes) = on_budget f f.budget p h in IsSane-and_stable f budget p b passes
