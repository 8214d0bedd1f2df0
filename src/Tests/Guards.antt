-- ===== src/Tests/Guards.antt =====
-- The cycle lock, the Buy-now button and the dashboard's middlewares on concrete histories.
use bitcoiners_dca.Prelude.{
  ℕ, ◌≡◌, ◌≢◌, refl, ◌⊎◌, String, true, false, none, some, List, [], ◌∷◌, All, arith, ◌≤◌, length,
}
use bitcoiners_dca.Decimal.{whole, sub}
use bitcoiners_dca.Risk.{evaluate}
use bitcoiners_dca.Persistence.{
  cycle_lock_ttl_seconds, held_by, try_acquire_cycle_lock, release_cycle_lock,
}
use bitcoiners_dca.Persistence.Exclusion.{
  Cycle, System, live, passes, begins, ends, crashes, Reach, start, next, Reach-one_cycle,
  Reach-acquires,
}
use bitcoiners_dca.Dashboard.{
  Environment, Request, handled, serve, is_allowed, is_given, text_of, has_valid_proxy_secret,
  cf_gate, origin_csrf, allowed_hosts,
}
use bitcoiners_dca.Dashboard.Access.{IsOwners, serve-IsOwners, serve-same_site}
use bitcoiners_dca.Dashboard.BuyNow.{clear, Button, started, Attempt, click, controls_buy_now}
use bitcoiners_dca.Dashboard.BuyNow.InFlight.{
  Event, clicked, cycle_begun, buy_ended, cycle_ended, run_events, run_events-none_started,
}
use bitcoiners_dca.Tests.Caps.{caps, active}

abbrev by : String → ℕ → Cycle
by p since = record { process = p; since = since }

-- The daemon has begun a cycle at 0 and still runs it when the dashboard begins one at 2500.
abbrev overtaken : System
overtaken = record {
  now = 2500;
  lock = some (held_by "dashboard" 2500);
  running = by "dashboard" 2500 ∷ by "daemon" 0 ∷ [];
  overran = [];
}

overtaken-Reach : Reach cycle_lock_ttl_seconds overtaken
unfolding try_acquire_cycle_lock
overtaken-Reach =
    next
      (next (next (start 0 none refl) (begins "daemon" (some (held_by "daemon" 0)) refl))
        (passes 2500 (omega arith)))
      (begins "dashboard" (some (held_by "dashboard" 2500)) refl)

Reach-one_cycle_example : length (live cycle_lock_ttl_seconds overtaken) ≤ 1
Reach-one_cycle_example = Reach-one_cycle cycle_lock_ttl_seconds overtaken-Reach

-- The first cycle of the daemon ends late, when the daemon is in its second: its release clears the
-- lock of the second, and the dashboard begins another beside it.
abbrev beside : System
beside = record {
  now = 2500;
  lock = some (held_by "dashboard" 2500);
  running = by "dashboard" 2500 ∷ by "daemon" 2500 ∷ [];
  overran = "daemon" ∷ [];
}

beside-Reach : Reach cycle_lock_ttl_seconds beside
unfolding try_acquire_cycle_lock release_cycle_lock
beside-Reach =
    next
      (next
        (next
          (next (next (start 0 none refl) (begins "daemon" (some (held_by "daemon" 0)) refl))
            (passes 2500 (omega arith)))
          (begins "daemon" (some (held_by "daemon" 2500)) refl))
        (ends (by "daemon" 2500 ∷ []) [] (by "daemon" 0) refl))
      (begins "dashboard" (some (held_by "dashboard" 2500)) refl)

-- The daemon has crashed.
crashed-Reach :
    Reach cycle_lock_ttl_seconds
      (record { now = 0; lock = some (held_by "daemon" 0); running = []; overran = [] })
unfolding try_acquire_cycle_lock
crashed-Reach =
    next (next (start 0 none refl) (begins "daemon" (some (held_by "daemon" 0)) refl))
      (crashes "daemon")

Reach-acquires_example :
    try_acquire_cycle_lock cycle_lock_ttl_seconds "dashboard" 2500 (some (held_by "daemon" 0))
    ≡ (true, some (held_by "dashboard" 2500))
Reach-acquires_example =
    Reach-acquires cycle_lock_ttl_seconds "dashboard" 2500 crashed-Reach (omega arith)

abbrev attempt : ℕ → Attempt
attempt now = record {
  rm = caps;
  risk = active;
  spent = whole 0;
  amount = whole 100;
  me = "dashboard";
  now = now;
}

abbrev button : Button
button = record { started_at = clear; lock = none }

abbrev running_button : Button
running_button = (click (attempt 10) button).1

starts : click (attempt 10) button ≡ (started, running_button)
unfolding controls_buy_now try_acquire_cycle_lock evaluate sub
starts = refl

abbrev traffic : List Event
traffic =
    clicked (attempt 11)
    ∷ cycle_begun "daemon" 600
    ∷ buy_ended "old_dashboard"
    ∷ cycle_ended "daemon"
    ∷ clicked (attempt 1800)
    ∷ []

run_events-none_started_example :
    All (λ answer. answer ≢ started) (run_events traffic running_button).0
run_events-none_started_example =
    run_events-none_started (attempt 10) button running_button traffic starts
      (omega arith, (omega arith, (refl, (refl, (omega arith, tt)))))

allowed_again : (evaluate caps active (whole 0) (whole 100)).allow ≡ true
unfolding evaluate sub
allowed_again = refl

abbrev hosted : Environment
hosted = record {
  require_cf_header = true;
  proxy_shared_secret = "s3cret";
  tenant_owner_email = "owner@example.com";
  trusted_proxy_hosts = "app.example.com" ∷ [];
}

abbrev self_hosted : Environment
self_hosted = record hosted { require_cf_header = false; proxy_shared_secret = "" }

abbrev proxied : Request
proxied = record {
  path = "/controls/buy-now";
  safe_method = false;
  proxy_secret = some "s3cret";
  cf_user = some "owner@example.com";
  origin = none;
  referer = none;
  host = some "dca.example.com";
  forwarded_host = none;
}

abbrev same_host : Request
same_host = record proxied { proxy_secret = none; origin = some "//dca.example.com" }

-- Texts as they stand, in place of urllib and strip.
abbrev plain : String → String
plain s = s

proxied_handled : serve plain plain hosted proxied ≡ handled
unfolding serve cf_gate origin_csrf has_valid_proxy_secret
proxied_handled = refl

serve-IsOwners_example : (proxied.path ≡ "/healthz") ⊎ IsOwners plain plain hosted proxied
serve-IsOwners_example = serve-IsOwners plain plain hosted proxied refl proxied_handled

same_host_handled : serve plain plain self_hosted same_host ≡ handled
unfolding serve cf_gate origin_csrf has_valid_proxy_secret is_allowed allowed_hosts
same_host_handled = refl

no_secret : has_valid_proxy_secret self_hosted same_host ≡ false
unfolding has_valid_proxy_secret
no_secret = refl

serve-same_site_example :
    (is_allowed plain plain self_hosted same_host (text_of same_host.origin) ≡ true)
    ⊎ ((is_given same_host.origin ≡ false)
        × (is_allowed plain plain self_hosted same_host (text_of same_host.referer) ≡ true))
    ⊎ ((is_given same_host.origin ≡ false)
        × (is_given same_host.referer ≡ false)
        × (self_hosted.require_cf_header ≡ false))
serve-same_site_example =
    serve-same_site plain plain self_hosted same_host refl no_secret same_host_handled
