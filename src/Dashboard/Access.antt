-- ===== src/Dashboard/Access.antt =====
-- Who gets through to a handler of the dashboard.
use bitcoiners_dca.Prelude.{
  ◌≡◌, ◌≢◌, ◌⊎◌, inl, inr, String, true, false, not, ◌||◌, arith, Bool-cases, str_eq,
}
use bitcoiners_dca.Prelude.Dict.{str_eq→eq, str_eq→ne}
use bitcoiners_dca.Dashboard.{
  Environment, Request, Response, handled, refused, text_of, is_given, has_valid_proxy_secret,
  check_owner, cf_gate, is_allowed, origin_csrf, serve,
}

module _ (fold host_of : String → String) (env : Environment) where
  -- The request bears the configured secret, and the identity of the configured owner.
  abbrev pub IsOwners : Request → Type 0
  IsOwners r =
      (env.proxy_shared_secret ≢ "")
      × (text_of r.proxy_secret ≡ env.proxy_shared_secret)
      × (env.tenant_owner_email ≢ "")
      × (fold (text_of r.cf_user) ≡ env.tenant_owner_email)

  has_valid_proxy_secret-eq :
      (r : Request)
      → str_eq env.proxy_shared_secret "" ≡ false
      → has_valid_proxy_secret env r ≡ true
      → text_of r.proxy_secret ≡ env.proxy_shared_secret
  unfolding has_valid_proxy_secret
  has_valid_proxy_secret-eq r some_secret e =
      str_eq→eq (text_of r.proxy_secret) env.proxy_shared_secret (rw some_secret at e)

  check_owner-handled :
      (email : String) (next : Response)
      → check_owner fold host_of env email next ≡ handled
      → (next ≡ handled) × (env.tenant_owner_email ≢ "") × (fold email ≡ env.tenant_owner_email)
  check_owner-handled email next e = elim (Bool-cases (str_eq env.tenant_owner_email "")) [
    | inl unset ↦ absurd (let h : refused 503 ≡ handled = rw unset at e in cc)
    | inr set ↦ elim (Bool-cases (str_eq (fold email) env.tenant_owner_email)) [
      | inl same ↦ (
        rw (set, same) at e,
        str_eq→ne env.tenant_owner_email "" set,
        str_eq→eq (fold email) env.tenant_owner_email same,
      )
      | inr differs ↦ absurd (let h : refused 403 ≡ handled = rw (set, differs) at e in cc)
    ]
  ]

  -- The gate in hosted mode, past /healthz.
  gate_closed :
      (r : Request) (next : Response)
      → (str_eq r.path "/healthz" || not env.require_cf_header) ≡ false
      → cf_gate fold host_of env r next ≡ handled
      → (next ≡ handled) × IsOwners r
  unfolding cf_gate
  gate_closed r next closed e = elim (Bool-cases (str_eq env.proxy_shared_secret "")) [
    | inl unset ↦ absurd (let h : refused 503 ≡ handled = rw (closed, unset) at e in cc)
    | inr set ↦ elim (Bool-cases (has_valid_proxy_secret env r)) [
      | inr forged ↦ absurd (let h : refused 403 ≡ handled = rw (closed, set, forged) at e in cc)
      | inl proved ↦ elim (Bool-cases (is_given r.cf_user)) [
        | inr nobody ↦
            absurd (let h : refused 401 ≡ handled = rw (closed, set, proved, nobody) at e in cc)
        | inl user ↦
            let (through, owner, same) =
              check_owner-handled (text_of r.cf_user) next (rw (closed, set, proved, user) at e) in
            let shared = has_valid_proxy_secret-eq r set proved in
            (through, (str_eq→ne env.proxy_shared_secret "" set, shared, owner, same))
      ]
    ]
  ]

  gate_open :
      (r : Request) (next : Response)
      → (str_eq r.path "/healthz" || not env.require_cf_header) ≡ true
      → cf_gate fold host_of env r next ≡ handled
      → next ≡ handled
  unfolding cf_gate
  gate_open r next open_gate e = rw open_gate at e

  -- In hosted mode, a request that reaches a handler is for /healthz, or it bears the shared secret
  -- and the owner's identity, neither of them empty in the configuration.
  pub serve-IsOwners :
      (r : Request)
      → env.require_cf_header ≡ true
      → serve fold host_of env r ≡ handled
      → (r.path ≡ "/healthz") ⊎ IsOwners r
  unfolding serve
  serve-IsOwners r hosted e =
      elim (Bool-cases (str_eq r.path "/healthz" || not env.require_cf_header)) [
        | inl open_gate ↦
            let h : (str_eq r.path "/healthz" || false) ≡ true = rw hosted at open_gate in
            inl (str_eq→eq r.path "/healthz" (ground arith))
        | inr closed ↦ inr (gate_closed r _ closed e).1
      ]

  past_gate :
      (r : Request) (next : Response) → cf_gate fold host_of env r next ≡ handled → next ≡ handled
  past_gate r next e = elim (Bool-cases (str_eq r.path "/healthz" || not env.require_cf_header)) [
    | inl open_gate ↦ gate_open r next open_gate e
    | inr closed ↦ (gate_closed r next closed e).0
  ]

  same_site :
      (r : Request)
      → r.safe_method ≡ false
      → has_valid_proxy_secret env r ≡ false
      → origin_csrf fold host_of env r handled ≡ handled
      → (is_allowed fold host_of env r (text_of r.origin) ≡ true)
        ⊎ ((is_given r.origin ≡ false) × (is_allowed fold host_of env r (text_of r.referer) ≡ true))
        ⊎ ((is_given r.origin ≡ false)
            × (is_given r.referer ≡ false)
            × (env.require_cf_header ≡ false))
  unfolding origin_csrf
  same_site r changing no_secret e = elim (Bool-cases (is_given r.origin)) [
    | inl from ↦ elim (Bool-cases (is_allowed fold host_of env r (text_of r.origin))) [
      | inl allowed ↦ inl allowed
      | inr foreign ↦
          absurd
            (let h : refused 403 ≡ handled = rw (changing, no_secret, from, foreign) at e in cc)
    ]
    | inr no_origin ↦ elim (Bool-cases (is_given r.referer)) [
      | inl referred ↦ elim (Bool-cases (is_allowed fold host_of env r (text_of r.referer))) [
        | inl allowed ↦ inr (inl (no_origin, allowed))
        | inr foreign ↦ absurd (
            let h : refused 403 ≡ handled =
              rw (changing, no_secret, no_origin, referred, foreign) at e in
            cc)
      ]
      | inr bare ↦ elim (Bool-cases env.require_cf_header) [
        | inl hosted ↦ absurd (
            let h : refused 403 ≡ handled =
              rw (changing, no_secret, no_origin, bare, hosted) at e in
            cc)
        | inr own ↦ inr (inr (no_origin, bare, own))
      ]
    ]
  ]

  -- In either mode, a request of a state-changing method that reaches a handler without the shared
  -- secret names an allowed host as its origin, or, without an origin, as its referer, or it names
  -- neither and the dashboard is self-hosted.
  pub serve-same_site :
      (r : Request)
      → r.safe_method ≡ false
      → has_valid_proxy_secret env r ≡ false
      → serve fold host_of env r ≡ handled
      → (is_allowed fold host_of env r (text_of r.origin) ≡ true)
        ⊎ ((is_given r.origin ≡ false) × (is_allowed fold host_of env r (text_of r.referer) ≡ true))
        ⊎ ((is_given r.origin ≡ false)
            × (is_given r.referer ≡ false)
            × (env.require_cf_header ≡ false))
  unfolding serve
  serve-same_site r changing no_secret e = same_site r changing no_secret (past_gate r _ e)
