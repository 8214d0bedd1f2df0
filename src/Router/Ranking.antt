-- ===== src/Router/Ranking.antt =====
-- What `_apply_filters` keeps and how it orders it.
use bitcoiners_dca.Prelude.{
  ◌≡◌, inl, inr, Bool, true, false, ◌&&◌, ◌||◌, Option, none, some, List, [], ◌∷◌, arith, keep, All,
  All-keep, Option-cases,
}
use bitcoiners_dca.Prelude.Int.{ℤ, ltb_ℤ, leb_ℤ}
use bitcoiners_dca.Prelude.Sort.{sort, IsSorted, sort-IsSorted, sort-All}
use mathlib.Core.Path.{subst}
use mathlib.Core.Option.{some-injective}
use bitcoiners_dca.Decimal.{Decimal}
use bitcoiners_dca.Routing.{Price}
use bitcoiners_dca.Router.{RouteCandidate, ExcludedRoute, SmartRouter}
use bitcoiners_dca.Router.Filters.{
  minimum_filter, spread_filter, balance_filter, rescore, rescore_all, apply_filters, is_funded,
  in_spread, by_score, by_balance, ranking, balance_key, nonempty_or, funded_or,
}

by_score_total :
    (router : SmartRouter) (c d : RouteCandidate)
    → by_score router c d ≡ false
    → by_score router d c ≡ true
by_score_total router c d h = ground arith

by_score_trans :
    (router : SmartRouter) (c d e : RouteCandidate)
    → by_score router c d ≡ true
    → by_score router d e ≡ true
    → by_score router c e ≡ true
by_score_trans router c d e h k = ground arith

lex : ℤ → ℤ → Bool → Bool
lex a b s = ltb_ℤ a b || (leb_ℤ a b && s)

lex_trans :
    (a b c : ℤ) (s t u : Bool)
    → (s ≡ true → t ≡ true → u ≡ true)
    → lex a b s ≡ true
    → lex b c t ≡ true
    → lex a c u ≡ true
unfolding lex
lex_trans a b c s t u st h k = ground arith

lex_total : (a b : ℤ) (s t : Bool) → (s ≡ false → t ≡ true) → lex a b s ≡ false → lex b a t ≡ true
unfolding lex
lex_total a b s t st h = ground arith

module _ (router : SmartRouter) where
  by_balance_total :
      (c d : RouteCandidate) → by_balance router c d ≡ false → by_balance router d c ≡ true
  unfolding lex
  by_balance_total c d =
      lex_total (balance_key router c) (balance_key router d) _ _ (by_score_total router c d)

  by_balance_trans :
      (c d e : RouteCandidate)
      → by_balance router c d ≡ true
      → by_balance router d e ≡ true
      → by_balance router c e ≡ true
  unfolding lex
  by_balance_trans c d e =
      lex_trans (balance_key router c) (balance_key router d) (balance_key router e) _ _ _
        (by_score_trans router c d e)

  pub ranking-IsSorted :
      (short : Bool) (cs : List RouteCandidate)
      → IsSorted (ranking router short) (sort (ranking router short) cs)
  ranking-IsSorted true cs = sort-IsSorted _ by_balance_total by_balance_trans cs
  ranking-IsSorted false cs = sort-IsSorted _ (by_score_total router) (by_score_trans router) cs

  -- A property that does not look at the score.
  abbrev pub Unscored : (RouteCandidate → Type 0) → Type 0
  Unscored P = (c : RouteCandidate) (s : Price) → P c → P (record c { score = s })

  pub rescore-eq_some :
      (c c' : RouteCandidate) → rescore router c ≡ some c' → c' ≡ record c { score = c'.score }
  unfolding rescore
  rescore-eq_some c c' e = ground arith

  rescore-keeps :
      (P : RouteCandidate → Type 0) (c c' : RouteCandidate)
      → Unscored P
      → P c
      → rescore router c ≡ some c'
      → P c'
  rescore-keeps P c c' u h e = rw (rescore-eq_some c c' e) (u c c'.score h)

  pub rescore_all-keeps :
      (P : RouteCandidate → Type 0) (cs cs' : List RouteCandidate)
      → Unscored P
      → All P cs
      → rescore_all router cs ≡ some cs'
      → All P cs'
  unfolding rescore_all
  rescore_all-keeps P [] cs' u h e = rw (← some-injective _ _ e) tt
  rescore_all-keeps P (c ∷ cs) cs' u h e = elim (Option-cases (rescore router c)) [
    | inl raises ↦ absurd (ground arith)
    | inr (d, ed) ↦ elim (Option-cases (rescore_all router cs)) [
      | inl raises ↦ absurd (ground arith)
      | inr (ds, eds) ↦
          let same : d ∷ ds ≡ cs' = ground arith in
          subst (All P) same (rescore-keeps P c d u h.0 ed, rescore_all-keeps P cs ds u h.1 eds)
    ]
  ]

  pub spread_filter-keeps :
      (P : RouteCandidate → Type 0) (cs : List RouteCandidate)
      → All P cs
      → All P (spread_filter router cs)
  unfolding spread_filter
  spread_filter-keeps P cs h = go (keep (in_spread router) cs) (All-keep P (in_spread router) cs h)
    where
      go : (ks : List RouteCandidate) → All P ks → All P (nonempty_or ks cs)
      go [] k = h
      go (x ∷ xs) k = k

  pub balance_filter-keeps :
      (P : RouteCandidate → Type 0) (required : Option Decimal) (cs : List RouteCandidate)
      → All P cs
      → All P (balance_filter router required cs).0
  unfolding balance_filter
  balance_filter-keeps P none cs h = h
  balance_filter-keeps P (some amount) cs h =
      go (keep (is_funded router amount) cs) (All-keep P (is_funded router amount) cs h)
    where
      go : (ks : List RouteCandidate) → All P ks → All P (funded_or router cs ks).0
      go [] k = h
      go (x ∷ xs) k = k

  minimum_filter-keeps :
      (P : RouteCandidate → Type 0) (required : Option Decimal) (cs : List RouteCandidate)
      → All P cs
      → All P (minimum_filter required cs).0
  unfolding minimum_filter
  minimum_filter-keeps P none cs h = h
  minimum_filter-keeps P (some amount) cs h = All-keep P _ cs h

  -- The candidates that `_apply_filters` ranks, and whether none of them is funded.
  abbrev pub shortlist : Option Decimal → List RouteCandidate → List RouteCandidate × Bool
  shortlist required cs =
      balance_filter router required (spread_filter router (minimum_filter required cs).0)

  pub apply_filters-eq_some :
      (required : Option Decimal) (cs usable : List RouteCandidate) (excluded : List ExcludedRoute)
      → apply_filters router cs required ≡ some (usable, excluded)
      → (scored : List RouteCandidate) × (rescore_all router (shortlist required cs).0
          ≡ some scored)
        × (usable ≡ sort (ranking router (shortlist required cs).1) scored)
        × (excluded ≡ (minimum_filter required cs).1)
  unfolding apply_filters
  apply_filters-eq_some required cs usable excluded e =
      elim (Option-cases (rescore_all router (shortlist required cs).0)) [
        | inl raises ↦ absurd (ground arith)
        | inr (scored, es) ↦ (scored, es, ground arith, ground arith)
      ]

  -- A property of all candidates that does not look at scores holds of all that are offered.
  pub apply_filters-keeps :
      (P : RouteCandidate → Type 0) (required : Option Decimal) (cs usable : List RouteCandidate)
      (excluded : List ExcludedRoute)
      → Unscored P
      → All P cs
      → apply_filters router cs required ≡ some (usable, excluded)
      → All P usable
  apply_filters-keeps P required cs usable excluded u h e =
      let (scored, es, eu, ee) = apply_filters-eq_some required cs usable excluded e in
      rw eu (
        sort-All _ P scored (
          rescore_all-keeps P (shortlist required cs).0 scored u
            (balance_filter-keeps P required _
              (spread_filter-keeps P _ (minimum_filter-keeps P required cs h)))
            es))
