-- ===== src/Dashboard.antt =====
-- src/bitcoiners_dca/web/dashboard.py: the two middlewares that guard the dashboard, in the order
-- in which `create_app` stacks them, and the guards of the Buy-now button. The environment's texts
-- are stripped, and the owner's address is in lower case. `host_of` stands for the hostname that
-- urllib finds in a URL, and `fold` for strip and lower.
pub mod Access
pub mod BuyNow
pub mod StrategyForm
pub mod GoLive
pub mod TradeLog
use bitcoiners_dca.Prelude.{
  ℕ, String, ◌<>◌, Bool, not, ◌&&◌, ◌||◌, Option, none, some, List, [], ◌∷◌, any, keep, ◌++◌,
  if◌then◌else◌, str_eq,
}
use bitcoiners_dca.Prelude.Int.{pos, ltb_ℤ, leb_ℤ}
use bitcoiners_dca.Decimal.{Decimal, whole}

-- The environment: an unset variable is "".
pub record Environment : Type 0 where
  pub require_cf_header : Bool
  pub proxy_shared_secret : String
  pub tenant_owner_email : String
  pub trusted_proxy_hosts : List String

-- `safe_method` is GET, HEAD, OPTIONS or TRACE; an absent header is `none`.
pub record Request : Type 0 where
  pub path : String
  pub safe_method : Bool
  pub proxy_secret : Option String
  pub cf_user : Option String
  pub origin : Option String
  pub referer : Option String
  pub host : Option String
  pub forwarded_host : Option String

pub data Response : Type 0 where
  handled : Response
  refused : ℕ → Response

-- A header that Python takes for true, or "".
abbrev pub text_of : Option String → String
text_of none = ""
text_of (some s) = s

abbrev pub is_given : Option String → Bool
is_given h = not (str_eq (text_of h) "")

-- `_has_valid_proxy_secret`
unfoldable pub has_valid_proxy_secret : Environment → Request → Bool
has_valid_proxy_secret env r =
    not (str_eq env.proxy_shared_secret "")
    && str_eq (text_of r.proxy_secret) env.proxy_shared_secret

module _ (fold host_of : String → String) (env : Environment) where
  -- The third test of the gate.
  abbrev pub check_owner : String → Response → Response
  check_owner email next =
      if str_eq env.tenant_owner_email ""
      then refused 503
      else if str_eq (fold email) env.tenant_owner_email
      then next
      else refused 403

  -- `_CFGateMiddleware.dispatch`, where `next` is the answer of what is behind it.
  unfoldable pub cf_gate : Request → Response → Response
  cf_gate r next =
      if str_eq r.path "/healthz" || not env.require_cf_header
      then next
      else if str_eq env.proxy_shared_secret ""
      then refused 503
      else if has_valid_proxy_secret env r
      then (if is_given r.cf_user then check_owner (text_of r.cf_user) next else refused 401)
      else refused 403

  abbrev given : Option String → List String
  given h = if is_given h then host_of ("//" <> text_of h) ∷ [] else []

  -- `allowed`
  unfoldable pub allowed_hosts : Request → List String
  allowed_hosts r =
      keep (λ h. not (str_eq h "")) (given r.host ++ given r.forwarded_host)
      ++ env.trusted_proxy_hosts

  -- `self._host_of(url) in allowed`
  unfoldable pub is_allowed : Request → String → Bool
  unfolding allowed_hosts
  is_allowed r url = any (str_eq (host_of url)) (allowed_hosts r)

  -- `_OriginCSRFMiddleware.dispatch`
  unfoldable pub origin_csrf : Request → Response → Response
  unfolding has_valid_proxy_secret is_allowed
  origin_csrf r next =
      if r.safe_method || has_valid_proxy_secret env r
      then next
      else if is_given r.origin
      then (if is_allowed r (text_of r.origin) then next else refused 403)
      else if is_given r.referer
      then (if is_allowed r (text_of r.referer) then next else refused 403)
      else if env.require_cf_header
      then refused 403
      else next

  -- `create_app`: the gate is added last, so it comes first.
  unfoldable pub serve : Request → Response
  unfolding cf_gate origin_csrf
  serve r = cf_gate r (origin_csrf r handled)

-- `_clamp_multiplier`; `none` is a text that is no number.
unfoldable pub clamp_multiplier : Decimal → Decimal → Option Decimal → Decimal
clamp_multiplier lo hi none = whole 1
clamp_multiplier lo hi (some v) = if ltb_ℤ v lo then lo else if ltb_ℤ hi v then hi else v

-- `_parse_risk_cap`, on the number read from the form
unfoldable pub parse_risk_cap : Option Decimal → Option Decimal
parse_risk_cap none = none
parse_risk_cap (some v) = if leb_ℤ v (pos 0) then none else some v
