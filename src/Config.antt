-- ===== src/Config.antt =====
-- src/bitcoiners_dca/utils/config.py: what loading does to the configuration beyond reading it. The
-- schema's checks of single fields are pydantic's; the sections here have passed them. The text
-- fields hold the raw values, and the budget's derivation is that of Strategy/Budget.
pub mod Budgets
use bitcoiners_dca.Prelude.{
  ℕ, String, Bool, true, false, Option, none, some, List, [], ◌∷◌, if◌then◌else◌, not, any, str_eq,
}
use bitcoiners_dca.Prelude.Int.{ℤ, pos}
use bitcoiners_dca.Prelude.Dict.{Dict}
use bitcoiners_dca.Decimal.{Decimal, whole, literal}
use bitcoiners_dca.Strategy.Budget.{derive_per_cycle}

-- `StrategyYamlConfig`, as far as the budget is concerned.
pub record StrategySection : Type 0 where
  pub amount_aed : Decimal
  pub budget_amount : Option Decimal
  pub budget_period : String
  pub frequency : String
  pub every_n_hours : ℤ

-- The defaults of the fields.
abbrev pub default_strategy : StrategySection
default_strategy = record {
  amount_aed = whole 500;
  budget_amount = none;
  budget_period = "cycle";
  frequency = "weekly";
  every_n_hours = pos 1;
}

-- `RiskConfig`
pub record RiskSection : Type 0 where
  pub max_pct_of_balance : Decimal
  pub max_daily_aed : Option Decimal
  pub max_single_buy_aed : Option Decimal
  pub max_consecutive_failures : ℕ

abbrev pub default_risk : RiskSection
default_risk = record {
  max_pct_of_balance = literal 25 2;
  max_daily_aed = none;
  max_single_buy_aed = none;
  max_consecutive_failures = 5;
}

-- The amount where a budget is set: `none` is the exception that the validator swallows.
abbrev pub rederived : Option Decimal → StrategySection → StrategySection
rederived none s = s
rederived (some derived) s = record s { amount_aed = derived }

abbrev backfill : Option Decimal → StrategySection → StrategySection
backfill none s = record s { budget_amount = some s.amount_aed }
backfill (some budget) s =
    rederived (derive_per_cycle budget s.budget_period s.frequency s.every_n_hours) s

-- `_backfill_budget`
unfoldable pub backfill_budget : StrategySection → StrategySection
backfill_budget s = backfill s.budget_amount s

abbrev retired_sections : List String
retired_sections = "license" ∷ []

abbrev pub is_retired : String → Bool
is_retired key = any (str_eq key) retired_sections

-- `_drop_retired_sections`
unfoldable pub drop_retired_sections {ℓ} : {V : Type ℓ} → Dict V → Dict V
drop_retired_sections [] = []
drop_retired_sections ((key, v) ∷ raw) =
    let rest = drop_retired_sections raw in if is_retired key then rest else (key, v) ∷ rest

-- What is known of the file: it is absent, or it holds these raw sections. `read` stands for
-- pydantic's reading of the sections, and `none` for its refusal.
pub data ConfigFile {ℓ} (V : Type ℓ) : Type ℓ where
  no_file : ConfigFile V
  holds : Dict V → ConfigFile V

abbrev validated : Option StrategySection → Option StrategySection
validated none = none
validated (some s) = some (backfill_budget s)

-- `load_config`, as far as the strategy is concerned.
unfoldable pub load_config {ℓ} :
    {V : Type ℓ} → (Dict V → Option StrategySection) → ConfigFile V → Option StrategySection
unfolding backfill_budget drop_retired_sections
load_config read no_file = some (backfill_budget default_strategy)
load_config read (holds raw) = validated (read (drop_retired_sections raw))
