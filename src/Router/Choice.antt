-- ===== src/Router/Choice.antt =====
-- What the router offers for a cycle of a given size: floors, funding and order.
use bitcoiners_dca.Prelude.{
  ◌≡◌, map, Any, some-inj, Bool, Bool-cases, ◌⊎◌, inl, inr, refl, sym, ap, ◌∙◌, true, false, not,
  some, List, [], ◌∷◌, arith, keep, All, All-imp, keep-All, keep_nil, Option-cases,
}
use bitcoiners_dca.Prelude.Int.{pos, ◌≤ℤ◌, ◌<ℤ◌}
use bitcoiners_dca.Prelude.Sort.{sort, IsSorted, sort-All, sort-eq-nil, sort-perm}
use mathlib.Core.Path.{subst}
use mathlib.Core.List.Perm
use mathlib.Core.List.{Perm}
use bitcoiners_dca.Decimal.{Decimal}
use bitcoiners_dca.Router.{RouteCandidate, ExcludedRoute, SmartRouter}
use bitcoiners_dca.Router.Filters.{
  below_minimum, minimum_filter, spread_filter, balance_filter, rescore, rescore_all, apply_filters,
  is_funded, in_spread, by_score, by_balance, ranking, floor_in_quote, nonempty_or, funded_or,
}
use bitcoiners_dca.Router.Ranking.{
  rescore-eq_some, apply_filters-eq_some, rescore_all-keeps, spread_filter-keeps,
  balance_filter-keeps, ranking-IsSorted,
}

-- The candidate's floor, if it has one, is at most the cycle's amount.
abbrev pub Clears : Decimal → RouteCandidate → Type 0
Clears amount c = (floor_in_quote c ≤ℤ pos 0) ⊎ (floor_in_quote c ≤ℤ amount)

below_minimum-Clears :
    (amount : Decimal) (c : RouteCandidate) → not (below_minimum amount c) ≡ true → Clears amount c
unfolding below_minimum
below_minimum-Clears amount c h = ground arith

not_below_minimum :
    (amount : Decimal) (c : RouteCandidate)
    → not (below_minimum amount c) ≡ false
    → (pos 0 <ℤ floor_in_quote c) × (amount <ℤ floor_in_quote c)
unfolding below_minimum
not_below_minimum amount c h = ground arith

module _ (router : SmartRouter) (amount : Decimal) where
  -- The candidates that neither a partner minimum nor the spread filter takes out.
  abbrev pub eligible : List RouteCandidate → List RouteCandidate
  eligible cs = spread_filter router (minimum_filter (some amount) cs).0

  -- These routes, each as often as among the candidates.
  abbrev pub Offers : List RouteCandidate → List RouteCandidate → Type 0
  Offers usable cs = Perm (map (λ c. c.route) usable) (map (λ c. c.route) cs)

  -- Where some candidate is funded, all that are and no other, by rising score; where none is, all
  -- of them, by falling balance.
  abbrev pub Ranked : List RouteCandidate → List RouteCandidate → Type 0
  Ranked xs usable =
      (Any (λ c. is_funded router amount c ≡ true) xs
        × Offers usable (keep (is_funded router amount) xs)
        × IsSorted (by_score router) usable)
      ⊎ (All (λ c. is_funded router amount c ≡ false) xs
          × Offers usable xs
          × IsSorted (by_balance router) usable)

  rescore_all-routes :
      (xs ys : List RouteCandidate)
      → rescore_all router xs ≡ some ys
      → map (λ c. c.route) ys ≡ map (λ c. c.route) xs
  unfolding rescore_all rescore
  rescore_all-routes [] ys e = ap (map (λ c. c.route)) (sym (some-inj e))
  rescore_all-routes (x ∷ xs) ys e = elim (Option-cases (rescore router x)) [
    | inl raises ↦ absurd (ground arith)
    | inr (z, ez) ↦ elim (Option-cases (rescore_all router xs)) [
      | inl raises ↦ absurd (ground arith)
      | inr (zs, ezs) ↦
          let same : z ∷ zs ≡ ys = ground arith in
          let route : z.route ≡ x.route = ap (λ c. c.route) (rescore-eq_some router x z ez) in
          ap (map (λ c. c.route)) (sym same) ∙ λ i. route i ∷ rescore_all-routes xs zs ezs i
    ]
  ]

  sorted-Offers :
      (before : RouteCandidate → RouteCandidate → Bool) (xs scored : List RouteCandidate)
      → rescore_all router xs ≡ some scored
      → Offers (sort before scored) xs
  sorted-Offers before xs scored e =
      subst (λ rs. Perm (map (λ c. c.route) (sort before scored)) rs)
        (rescore_all-routes xs scored e) (Perm.map (λ c. c.route) (sort-perm before scored))

  keep-Any :
      (p : RouteCandidate → Bool) (xs ks : List RouteCandidate) (k : RouteCandidate)
      → keep p xs ≡ k ∷ ks
      → Any (λ c. p c ≡ true) xs
  keep-Any p [] ks k e = absurd (cc)
  keep-Any p (x ∷ xs) ks k e = elim (Bool-cases (p x)) [
    | inl kept ↦ inl kept
    | inr left ↦ inr (keep-Any p xs ks k (rw left at e))
  ]

  funded_or-Ranked :
      (xs ks scored usable : List RouteCandidate)
      → keep (is_funded router amount) xs ≡ ks
      → rescore_all router (funded_or router xs ks).0 ≡ some scored
      → usable ≡ sort (ranking router (funded_or router xs ks).1) scored
      → Ranked xs usable
  funded_or-Ranked xs [] scored usable e es eu = inr (
    keep_nil (is_funded router amount) xs e,
    rw eu (sorted-Offers (by_balance router) xs scored es),
    rw eu (ranking-IsSorted router true scored),
  )
  funded_or-Ranked xs (k ∷ ks) scored usable e es eu = inl (
    keep-Any (is_funded router amount) xs ks k e,
    rw (eu, e) (sorted-Offers (by_score router) (k ∷ ks) scored es),
    rw eu (ranking-IsSorted router false scored),
  )

  funded_or-eq-nil : (xs ks : List RouteCandidate) → (funded_or router xs ks).0 ≡ [] → xs ≡ []
  funded_or-eq-nil xs [] h = h
  funded_or-eq-nil xs (k ∷ ks) h = absurd (ground arith)

  spread_filter-eq-nil : (xs : List RouteCandidate) → spread_filter router xs ≡ [] → xs ≡ []
  unfolding spread_filter
  spread_filter-eq-nil xs h = go (keep (in_spread router) xs) h
    where
      go : (ks : List RouteCandidate) → nonempty_or ks xs ≡ [] → xs ≡ []
      go [] k = k
      go (x ∷ ks) k = absurd (ground arith)

  rescore_all-eq-nil : (xs : List RouteCandidate) → rescore_all router xs ≡ some [] → xs ≡ []
  unfolding rescore_all
  rescore_all-eq-nil [] h = refl
  rescore_all-eq-nil (x ∷ xs) h = elim (Option-cases (rescore router x)) [
    | inl raises ↦ absurd (ground arith)
    | inr (y, ey) ↦ elim (Option-cases (rescore_all router xs)) [
      | inl raises ↦ absurd (ground arith)
      | inr (ys, eys) ↦ absurd (ground arith)
    ]
  ]

module _ (router : SmartRouter) (amount : Decimal) (cs usable : List RouteCandidate)
    (excluded : List ExcludedRoute)
    (found : apply_filters router cs (some amount) ≡ some (usable, excluded)) where
  -- No offered candidate has a partner minimum above the cycle's amount.
  pub apply_filters-Clears : All (Clears amount) usable
  unfolding minimum_filter
  apply_filters-Clears =
      let (scored, es, eu, ee) =
        apply_filters-eq_some router (some amount) cs usable excluded found in
      rw eu (
        sort-All _ (Clears amount) scored (
          rescore_all-keeps router (Clears amount) _ scored (λ c s h. h)
            (balance_filter-keeps router (Clears amount) (some amount) _ (
              spread_filter-keeps router (Clears amount) _
                (All-imp (below_minimum-Clears amount) _ (keep-All _ cs))))
            es))

  -- Of the candidates that the partner minimums and the spread filter leave: where some can fund
  -- the amount, exactly those that can are offered, by rising score. Where none can, all are
  -- offered, the one with the largest balance first, and of equal ones that of least score.
  pub apply_filters-Ranked : Ranked router amount (eligible router amount cs) usable
  unfolding balance_filter
  apply_filters-Ranked =
      let (scored, es, eu, ee) =
        apply_filters-eq_some router (some amount) cs usable excluded found in
      funded_or-Ranked router amount (eligible router amount cs) _ scored usable refl es eu

  -- If nothing is offered, every candidate's partner minimum is above the cycle's amount.
  pub apply_filters-empty :
      usable ≡ [] → All (λ c. (pos 0 <ℤ floor_in_quote c) × (amount <ℤ floor_in_quote c)) cs
  unfolding balance_filter minimum_filter
  apply_filters-empty none_left =
      let (scored, es, eu, ee) =
        apply_filters-eq_some router (some amount) cs usable excluded found in
      let no_scored : scored ≡ [] = sort-eq-nil _ scored (sym eu ∙ none_left) in
      let short = rescore_all-eq-nil router amount _ (es ∙ ap some no_scored) in
      let no_kept =
        spread_filter-eq-nil router amount _ (funded_or-eq-nil router amount _ _ short) in
      All-imp (not_below_minimum amount) cs (keep_nil _ cs no_kept)
