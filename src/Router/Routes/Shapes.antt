-- ===== src/Router/Routes/Shapes.antt =====
-- The routes of each shape that src/bitcoiners_dca/core/router.py enumerates on one exchange.
use mathlib.Core.Path.{subst}
use mathlib.Core.Option.{some-injective}
use bitcoiners_dca.Prelude.{
  String, ◌≡◌, inl, inr, refl, sym, ap, ◌∙◌, false, ◌||◌, Option, none, some, List, [], ◌∷◌, arith,
  All, Any, Any-imp, Bool-cases, Option-cases, if◌then◌else◌, ◌>>=◌, str_eq,
}
use bitcoiners_dca.Prelude.Int.{pos, ◌<ℤ◌, leb_ℤ}
use bitcoiners_dca.Decimal.{Decimal, whole, quotient, mul, max_of}
use bitcoiners_dca.Models.{Ticker}
use bitcoiners_dca.Routing.{TradeHop, TradeRoute, make_route, chains}
use bitcoiners_dca.Router.{RouteCandidate, ExchangeMarketData, SmartRouter, score_route, get_or}
use bitcoiners_dca.Router.Market.{pair_of, is_end}
use bitcoiners_dca.Router.Enumerate.{
  collect, both, direct, two_hop, intermediate_direct, funded_by, rate_of, preferring, three_hop,
  through_one, through_two, on_exchange, buy_hop,
}
use bitcoiners_dca.Router.Routes.{
  IsExecutable, RateFrom, built, collect-All, both-All, score_route-route,
}

module _ (router : SmartRouter) (mds : List ExchangeMarketData) (target quote : String)
    (sample : Decimal) where
  abbrev pub Good : RouteCandidate → Type 0
  Good c = IsExecutable mds target quote c.route

  none_added : (cs : List RouteCandidate) → some [] ≡ some cs → All Good cs
  none_added cs e = subst (All Good) (some-injective _ _ e) tt

  -- A scored candidate has the route that was built.
  one_added :
      (r : TradeRoute) (spread : Decimal) (f : RouteCandidate → RouteCandidate)
      (cs : List RouteCandidate)
      → ((c : RouteCandidate) → (f c).route ≡ c.route)
      → IsExecutable mds target quote r
      → (score_route r sample spread mds >>= λ c. some (f c ∷ [])) ≡ some cs
      → All Good cs
  one_added r spread f cs keeps good e = elim (Option-cases (score_route r sample spread mds)) [
    | inl raises ↦ absurd (ground arith)
    | inr (c, ec) ↦
        let same : f c ∷ [] ≡ cs = ground arith in
        let route : (f c).route ≡ r = keeps c ∙ score_route-route r sample spread mds c ec in
        subst (All Good) same (subst (IsExecutable mds target quote) (sym route) good, tt)
  ]

  scored-All :
      (h : TradeHop) (ks : List TradeHop) (balance rate : Option Decimal) (spread : Decimal)
      (f : RouteCandidate → RouteCandidate) (cs : List RouteCandidate)
      → ((c : RouteCandidate) → (f c).route ≡ c.route)
      → IsExecutable mds target quote (built h ks balance rate)
      → (make_route (h ∷ ks) balance false (whole 0) rate >>= λ r.
          score_route r sample spread mds >>= λ c. some (f c ∷ []))
        ≡ some cs
      → All Good cs
  unfolding make_route
  scored-All h ks balance rate spread f cs keeps good e = elim (Bool-cases (chains h ks)) [
    | inl linked ↦
        one_added (built h ks balance rate) spread f cs keeps good (rw (linked, make_route) at e)
    | inr broken ↦ absurd (ground arith)
  ]

  direct-All :
      (md : ExchangeMarketData) (cs : List RouteCandidate)
      → direct router mds target quote sample md ≡ some cs
      → All Good cs
  unfolding direct
  direct-All md cs e = elim (Option-cases (md.tickers (pair_of target quote))) [
    | inl absent ↦ none_added cs (rw (absent, direct) at e)
    | inr (t, et) ↦
        scored-All (buy_hop md (pair_of target quote) t) [] (md.balances quote) none t.spread_pct
          (λ c. c) cs (λ c. refl) (refl, ((refl, refl), tt), refl, inl (refl, refl))
          (rw (et, direct) at e)
  ]

  two_hop-All :
      (md : ExchangeMarketData) (i : String) (cs : List RouteCandidate)
      → two_hop router mds target quote sample md i ≡ some cs
      → All Good cs
  unfolding two_hop
  two_hop-All md i cs e = elim (Option-cases (md.tickers (pair_of i quote))) [
    | inl absent ↦ none_added cs (rw (absent, two_hop) at e)
    | inr (t1, e1) ↦ elim (Option-cases (md.tickers (pair_of target i))) [
      | inl absent ↦ none_added cs (rw (e1, absent, two_hop) at e)
      | inr (t2, e2) ↦
          scored-All (buy_hop md (pair_of i quote) t1) (buy_hop md (pair_of target i) t2 ∷ [])
            (md.balances quote) none (max_of t1.spread_pct t2.spread_pct) (λ c. c) cs (λ c. refl)
            (refl, ((refl, refl), ((refl, refl), tt)), refl, inl (refl, refl))
            (rw (e1, e2, two_hop) at e)
    ]
  ]

  three_hop-All :
      (md : ExchangeMarketData) (i j : String) (cs : List RouteCandidate)
      → three_hop router mds target quote sample md i j ≡ some cs
      → All Good cs
  unfolding three_hop
  three_hop-All md i j cs e = elim (Bool-cases (str_eq j i || is_end target quote j)) [
    | inl end ↦ none_added cs (rw (end, three_hop) at e)
    | inr new ↦ elim (Option-cases (md.tickers (pair_of i quote))) [
      | inl absent ↦ none_added cs (rw (new, absent, three_hop) at e)
      | inr (t1, e1) ↦ elim (Option-cases (md.tickers (pair_of j i))) [
        | inl absent ↦ none_added cs (rw (new, e1, absent, three_hop) at e)
        | inr (t2, e2) ↦ elim (Option-cases (md.tickers (pair_of target j))) [
          | inl absent ↦ none_added cs (rw (new, e1, e2, absent, three_hop) at e)
          | inr (t3, e3) ↦
              scored-All (buy_hop md (pair_of i quote) t1)
                (buy_hop md (pair_of j i) t2 ∷ buy_hop md (pair_of target j) t3 ∷ [])
                (md.balances quote) none (max_of (max_of t1.spread_pct t2.spread_pct) t3.spread_pct)
                (λ c. c) cs (λ c. refl)
                (refl, ((refl, refl), ((refl, refl), ((refl, refl), tt))), refl, inl (refl, refl))
                (rw (new, e1, e2, e3, three_hop) at e)
        ]
      ]
    ]
  ]

  rate_of-eq_some :
      (o : Option Ticker) (ask : Decimal)
      → rate_of o ≡ some ask
      → (t : Ticker) × (o ≡ some t) × (pos 0 <ℤ t.ask) × (t.ask ≡ ask)
  rate_of-eq_some none ask e = absurd (ground arith)
  rate_of-eq_some (some t) ask e = (t, refl, ground arith, ground arith)

  preferring-route :
      (c : RouteCandidate) → (preferring router mds target quote sample c).route ≡ c.route
  preferring-route c = ground arith

  funded_by-All :
      (md : ExchangeMarketData) (i : String) (balance : Decimal) (t : Ticker)
      (rate : Option Decimal) (cs : List RouteCandidate)
      → Any (λ m. m ≡ md) mds
      → ((ask : Decimal)
          → rate ≡ some ask
          → (u : Ticker) × (md.tickers (pair_of i quote) ≡ some u)
            × (pos 0 <ℤ u.ask)
            × (u.ask ≡ ask))
      → funded_by router mds target quote sample md i balance t rate ≡ some cs
      → All Good cs
  funded_by-All md i balance t none cs there h e = none_added cs e
  funded_by-All md i balance t (some ask) cs there h e =
      let (u, found, positive_ask, same) = h ask refl in
      let r =
        built (buy_hop md (pair_of target i) t) [] (some (mul balance ask))
          (some (quotient (whole 1) ask)) in
      let from : RateFrom quote r md =
        (refl, u, found, positive_ask, ap (λ x. some (quotient (whole 1) x)) (sym same)) in
      scored-All (buy_hop md (pair_of target i) t) [] (some (mul balance ask))
        (some (quotient (whole 1) ask)) t.spread_pct (preferring router mds target quote sample) cs
        preferring-route
        (
          refl,
          ((refl, refl), tt),
          refl,
          inr (Any-imp (λ m is_md. subst (RateFrom quote r) (sym is_md) from) mds there),
        )
        e

  intermediate_direct-All :
      (md : ExchangeMarketData) (i : String) (cs : List RouteCandidate)
      → Any (λ m. m ≡ md) mds
      → intermediate_direct router mds target quote sample md i ≡ some cs
      → All Good cs
  unfolding intermediate_direct
  intermediate_direct-All md i cs there e = elim (Option-cases (md.tickers (pair_of target i))) [
    | inl absent ↦ none_added cs (rw (absent, intermediate_direct) at e)
    | inr (t, et) ↦
        elim (Bool-cases
          (leb_ℤ router.prefer_intermediate_min (get_or (md.balances i) (whole 0)))) [
            | inl held ↦
                funded_by-All md i (get_or (md.balances i) (whole 0)) t
                  (rate_of (md.tickers (pair_of i quote))) cs there
                  (rate_of-eq_some (md.tickers (pair_of i quote)))
                  (rw (et, held, intermediate_direct) at e)
            | inr dust ↦ none_added cs (rw (et, dust, intermediate_direct) at e)
          ]
  ]

  through_one-All :
      (md : ExchangeMarketData) (i : String) (cs : List RouteCandidate)
      → Any (λ m. m ≡ md) mds
      → through_one router mds target quote sample md i ≡ some cs
      → All Good cs
  unfolding through_one
  through_one-All md i cs there e = elim (Bool-cases (is_end target quote i)) [
    | inl end ↦ none_added cs (rw (end, through_one) at e)
    | inr new ↦
        both-All Good (two_hop router mds target quote sample md i)
          (intermediate_direct router mds target quote sample md i) cs (two_hop-All md i)
          (λ ds. intermediate_direct-All md i ds there) (rw (new, through_one) at e)
  ]

  through_two-All :
      (md : ExchangeMarketData) (i : String) (cs : List RouteCandidate)
      → through_two router mds target quote sample md i ≡ some cs
      → All Good cs
  unfolding through_two
  through_two-All md i cs e = elim (Bool-cases (is_end target quote i)) [
    | inl end ↦ none_added cs (rw (end, through_two) at e)
    | inr new ↦
        collect-All Good (three_hop router mds target quote sample md i) router.intermediates cs
          (λ j m. three_hop-All md i j) (rw (new, through_two) at e)
  ]

  pub on_exchange-All :
      (md : ExchangeMarketData)
      → Any (λ m. m ≡ md) mds
      → (cs : List RouteCandidate) → on_exchange router mds target quote sample md ≡ some cs
      → All Good cs
  unfolding on_exchange
  on_exchange-All md there cs e =
      both-All Good (direct router mds target quote sample md) _ cs (direct-All md) synthetic e
    where
      through :
          (ds : List RouteCandidate)
          → both
              (collect (through_one router mds target quote sample md) router.intermediates)
              (collect (through_two router mds target quote sample md) router.intermediates)
            ≡ some ds
          → All Good ds
      through ds =
          both-All Good _ _ ds
            (λ es.
              collect-All Good _ router.intermediates es
                (λ i m ds'. through_one-All md i ds' there))
            (λ es. collect-All Good _ router.intermediates es (λ i m. through_two-All md i))

      synthetic :
          (ds : List RouteCandidate)
          → (if router.enable_two_hop
              then both
                  (collect (through_one router mds target quote sample md) router.intermediates)
                  (collect (through_two router mds target quote sample md) router.intermediates)
              else some [])
            ≡ some ds
          → All Good ds
      synthetic ds d = elim (Bool-cases router.enable_two_hop) [
        | inl enabled ↦ through ds (rw enabled at d)
        | inr direct_only ↦ none_added ds (rw direct_only at d)
      ]
