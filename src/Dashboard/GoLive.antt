-- ===== src/Dashboard/GoLive.antt =====
-- src/bitcoiners_dca/web/dashboard.py: how the dashboard turns trading on. The configuration is
-- known by its dry run and the enabled exchanges, and `meta` by the successful tests of a
-- connection; every patch is valid and is saved. Messages and redirects are left out.
pub mod Gate
use bitcoiners_dca.Prelude.{
  ℕ, String, Bool, true, false, not, ◌&&◌, ◌||◌, Option, none, some, List, [], ◌∷◌, any, keep,
  if◌then◌else◌, str_eq,
}
use bitcoiners_dca.Prelude.Dict.{Dict, lookup, assign}
use bitcoiners_dca.Decimal.{Decimal}
use bitcoiners_dca.Models.{positive, nonzero}

-- `enabled` and the stored credentials are sets of names; `tested` is the table of
-- `exchange.{name}.test_connection_ok_at`.
pub record Panel : Type 0 where
  pub dry_run : Bool
  pub enabled : String → Bool
  pub has_credentials : String → Bool
  pub tested : Dict ℕ

-- The requests that touch it. A test comes with what the health check of the adapter, if there is
-- one, came to, and with the time; the settings with their box for the dry run.
pub data PanelRequest : Type 0 where
  toggle : String → Bool → PanelRequest
  test_connection : String → Bool → ℕ → PanelRequest
  credentials : String → PanelRequest
  go_live go_dry_run : PanelRequest
  settings_save : Bool → PanelRequest

abbrev pub exchange_names : List String
exchange_names = "okx" ∷ "binance" ∷ "bitoasis" ∷ []

abbrev pub is_known : String → Bool
is_known name = any (str_eq name) exchange_names

-- `_enabled_exchange_names`
unfoldable pub enabled_exchange_names : Panel → List String
enabled_exchange_names p = keep p.enabled exchange_names

abbrev pub is_some : Option ℕ → Bool
is_some none = false
is_some (some t) = true

abbrev pub is_tested : Dict ℕ → String → Bool
is_tested tested name = is_some (lookup name tested)

-- `_can_go_live`, whether it is ok
unfoldable pub can_go_live : Panel → Bool
unfolding enabled_exchange_names lookup
can_go_live p = any (is_tested p.tested) (enabled_exchange_names p)

-- The risk caps and the amount that the checklist looks at.
pub record Plan : Type 0 where
  pub amount_aed : Decimal
  pub max_daily_aed : Option Decimal
  pub max_single_buy_aed : Option Decimal

pub record Checklist : Type 0 where
  pub strategy_done : Bool
  pub exchange_done : Bool
  pub test_done : Bool
  pub risk_done : Bool
  pub live_done : Bool

abbrev is_capped : Option Decimal → Bool
is_capped none = false
is_capped (some cap) = nonzero cap

-- The loop of the third step, with its `break`.
unfoldable pub has_tested : Dict ℕ → List String → Bool
unfolding lookup
has_tested tested [] = false
has_tested tested (n ∷ names) =
    let rest = has_tested tested names in if is_tested tested n then true else rest

abbrev pub is_nonempty : List String → Bool
is_nonempty [] = false
is_nonempty (n ∷ names) = true

-- `_onboarding_checklist`, for a strategy with a frequency
unfoldable pub onboarding_checklist : Plan → Panel → Checklist
unfolding enabled_exchange_names has_tested
onboarding_checklist plan p = record {
  strategy_done = positive plan.amount_aed;
  exchange_done = is_nonempty (enabled_exchange_names p);
  test_done = has_tested p.tested (enabled_exchange_names p);
  risk_done = is_capped plan.max_daily_aed || is_capped plan.max_single_buy_aed;
  live_done = not p.dry_run;
}

abbrev set_name : String → Bool → (String → Bool) → String → Bool
set_name name b s = λ (n : String). if str_eq n name then b else s n

-- The handlers `exchange_toggle`, `exchange_test_connection`, `exchange_credentials`,
-- `controls_go_live`, `controls_go_dry_run` and `settings_save`.
unfoldable pub handle : PanelRequest → Panel → Panel
unfolding can_go_live assign
handle (toggle name b) p =
    if is_known name then record p { enabled = set_name name b p.enabled } else p
handle (test_connection name healthy now) p =
    if is_known name && (p.enabled name && (p.has_credentials name && healthy))
    then record p { tested = assign name now p.tested }
    else p
handle (credentials name) p =
    if is_known name then record p { has_credentials = set_name name true p.has_credentials } else p
handle go_live p = if can_go_live p then record p { dry_run = false } else p
handle go_dry_run p = record p { dry_run = true }
handle (settings_save box) p = record p { dry_run = box }

unfoldable pub handle_all : List PanelRequest → Panel → Panel
unfolding handle
handle_all [] p = p
handle_all (r ∷ rs) p = handle_all rs (handle r p)
