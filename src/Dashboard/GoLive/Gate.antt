-- ===== src/Dashboard/GoLive/Gate.antt =====
-- What has happened when the bot trades live.
use bitcoiners_dca.Prelude.{
  ℕ, String, ◌≡◌, refl, sym, ◌∙◌, ap, ◌⊎◌, inl, inr, Bool, true, false, ◌&&◌, List, [], ◌∷◌, any,
  Any, if◌then◌else◌, Bool-cases,
}
use bitcoiners_dca.Prelude.Dict.{Dict, lookup}
use bitcoiners_dca.Dashboard.GoLive.{
  Panel, PanelRequest, toggle, test_connection, credentials, go_live, go_dry_run, settings_save,
  Plan, is_nonempty, is_known, can_go_live, has_tested, is_tested, enabled_exchange_names,
  onboarding_checklist, handle, handle_all,
}

-- A test whose health check succeeded, of an exchange with credentials or not.
abbrev pub IsGoodTest : PanelRequest → Type 0
IsGoodTest (test_connection name healthy now) = healthy ≡ true
IsGoodTest _ = ⊥

-- Settings saved without the mark at the dry run.
abbrev pub IsUnmarked : PanelRequest → Type 0
IsUnmarked (settings_save box) = box ≡ false
IsUnmarked _ = ⊥

abbrev pub TurnsLive : PanelRequest → Type 0
TurnsLive r = IsGoodTest r ⊎ IsUnmarked r

any_tested : (names : List String) → any (is_tested []) names ≡ false
unfolding lookup
any_tested [] = refl
any_tested (n ∷ names) = any_tested names

untested_gate : (p : Panel) → p.tested ≡ [] → can_go_live p ≡ false
unfolding can_go_live
untested_gate p e =
    ap (λ t. any (is_tested t) (enabled_exchange_names p)) e ∙ any_tested (enabled_exchange_names p)

-- A dry run without a successful test.
abbrev IsFresh : Panel → Type 0
IsFresh p = (p.dry_run ≡ true) × (p.tested ≡ [])

if_IsFresh : (b : Bool) (p q : Panel) → IsFresh p → IsFresh q → IsFresh (if b then p else q)
if_IsFresh true p q fp fq = fp
if_IsFresh false p q fp fq = fq

unhealthy : (a b c : Bool) → (a && (b && (c && false))) ≡ false
unhealthy true true true = refl
unhealthy true true false = refl
unhealthy true false c = refl
unhealthy false b c = refl

handle-IsFresh : (r : PanelRequest) (p : Panel) → IsFresh p → TurnsLive r ⊎ IsFresh (handle r p)
unfolding handle
handle-IsFresh (toggle name b) p fresh = inr (if_IsFresh (is_known name) _ p fresh fresh)
handle-IsFresh (test_connection name true now) p fresh = inl (inl refl)
handle-IsFresh (test_connection name false now) p fresh =
    let never = unhealthy (is_known name) (p.enabled name) (p.has_credentials name) in
    inr (rw never fresh)
handle-IsFresh (credentials name) p fresh = inr (if_IsFresh (is_known name) _ p fresh fresh)
handle-IsFresh go_live p fresh = inr (rw (untested_gate p fresh.1) fresh)
handle-IsFresh go_dry_run p fresh = inr (refl, fresh.1)
handle-IsFresh (settings_save true) p fresh = inr (refl, fresh.1)
handle-IsFresh (settings_save false) p fresh = inl (inr refl)

handle_all-IsFresh :
    (rs : List PanelRequest) (p : Panel) → IsFresh p → Any TurnsLive rs ⊎ IsFresh (handle_all rs p)
unfolding handle_all
handle_all-IsFresh [] p fresh = inr fresh
handle_all-IsFresh (r ∷ rs) p fresh = elim (handle-IsFresh r p fresh) [
  | inl turned ↦ inl (inl turned)
  | inr still ↦ elim (handle_all-IsFresh rs (handle r p) still) [
    | inl later ↦ inl (inr later)
    | inr fresh' ↦ inr fresh'
  ]
]

-- A dashboard that starts with a dry run and without a successful test of a connection turns live
-- only if a later request was a successful test, or saved the settings without the mark at the dry
-- run: this last way does not pass the gate.
pub handle_all-TurnsLive :
    (rs : List PanelRequest) (p : Panel)
    → p.dry_run ≡ true
    → p.tested ≡ []
    → (handle_all rs p).dry_run ≡ false
    → Any TurnsLive rs
handle_all-TurnsLive rs p dry untested live = elim (handle_all-IsFresh rs p (dry, untested)) [
  | inl turned ↦ turned
  | inr fresh ↦ absurd (let h : true ≡ false = sym fresh.0 ∙ live in cc)
]

has_tested-any : (t : Dict ℕ) (names : List String) → has_tested t names ≡ any (is_tested t) names
unfolding has_tested
has_tested-any t [] = refl
has_tested-any t (n ∷ names) = elim (Bool-cases (is_tested t n)) [
  | inl e ↦ rw e refl
  | inr e ↦ rw e (has_tested-any t names)
]

some_enabled :
    (t : Dict ℕ) (names : List String) → any (is_tested t) names ≡ true → is_nonempty names ≡ true
some_enabled t [] h = cc
some_enabled t (n ∷ names) h = refl

-- The gate opens exactly if the checklist shows a tested connection; and then it also shows an
-- enabled exchange.
pub can_go_live-checklist :
    (plan : Plan) (p : Panel)
    → ((onboarding_checklist plan p).test_done ≡ can_go_live p)
      × (can_go_live p ≡ true → (onboarding_checklist plan p).exchange_done ≡ true)
unfolding onboarding_checklist can_go_live
can_go_live-checklist plan p = (
  has_tested-any p.tested (enabled_exchange_names p),
  some_enabled p.tested (enabled_exchange_names p),
)
