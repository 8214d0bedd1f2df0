-- ===== src/Router/Filters.antt =====
-- `SmartRouter._apply_filters`: partner minimum, spread, balance, preference, order.
use bitcoiners_dca.Prelude.{
  String, Bool, true, false, not, ◌&&◌, ◌||◌, Option, none, some, List, [], ◌∷◌, if◌then◌else◌,
  ◌>>=◌, str_eq, keep,
}
use bitcoiners_dca.Prelude.Int.{ltb_ℤ, leb_ℤ}
use bitcoiners_dca.Prelude.Sort.{sort}
use bitcoiners_dca.Decimal.{Decimal, whole, sub, quotient}
use bitcoiners_dca.Models.{positive}
use bitcoiners_dca.Routing.{Price}
use bitcoiners_dca.Router.{
  RouteCandidate, ExcludedRoute, SmartRouter, get_or, leb_price, mul_price, per_rate,
}

-- The candidate's floor in the cycle's quote currency.
unfoldable pub floor_in_quote : RouteCandidate → Decimal
floor_in_quote c =
    if positive c.min_input_amount
    then per_rate c.min_input_amount c.route.quote_to_input_rate
    else c.min_input_amount

unfoldable pub below_minimum : Decimal → RouteCandidate → Bool
unfolding floor_in_quote
below_minimum amount c = positive (floor_in_quote c) && ltb_ℤ amount (floor_in_quote c)

abbrev excluded_of : RouteCandidate → ExcludedRoute
excluded_of c = record {
  route = c.route;
  min_input_amount = c.min_input_amount;
  hop_minimums = c.hop_minimums;
}

abbrev pub excluded_below : Decimal → List RouteCandidate → List ExcludedRoute
excluded_below amount [] = []
excluded_below amount (c ∷ cs) =
    if below_minimum amount c
    then excluded_of c ∷ excluded_below amount cs
    else excluded_below amount cs

-- The candidates that clear their partner minimums, and the others.
unfoldable pub minimum_filter :
    Option Decimal → List RouteCandidate → List RouteCandidate × List ExcludedRoute
unfolding below_minimum
minimum_filter none cs = (cs, [])
minimum_filter (some amount) cs =
    (keep (λ c. not (below_minimum amount c)) cs, excluded_below amount cs)

abbrev pub nonempty_or {ℓ} : {A : Type ℓ} → List A → List A → List A
nonempty_or [] ys = ys
nonempty_or (x ∷ xs) ys = x ∷ xs

module _ (router : SmartRouter) where
  abbrev pub in_spread : RouteCandidate → Bool
  in_spread c = leb_ℤ c.max_spread_pct router.exclude_if_spread_pct_above

  -- Where every venue is wider than the threshold, all of them stay.
  unfoldable pub spread_filter : List RouteCandidate → List RouteCandidate
  spread_filter cs = nonempty_or (keep in_spread cs) cs

  abbrev pub covers : Option Decimal → Decimal → Bool
  covers none amount = true
  covers (some balance) amount = leb_ℤ amount balance

  abbrev pub is_funded : Decimal → RouteCandidate → Bool
  is_funded amount c = covers c.quote_balance amount

  abbrev pub funded_or : List RouteCandidate → List RouteCandidate → List RouteCandidate × Bool
  funded_or cs [] = (cs, true)
  funded_or cs (f ∷ fs) = (f ∷ fs, false)

  -- The candidates to rank, and whether none of them is funded.
  unfoldable pub balance_filter : Option Decimal → List RouteCandidate → List RouteCandidate × Bool
  balance_filter none cs = (cs, false)
  balance_filter (some amount) cs = funded_or cs (keep (is_funded amount) cs)

  abbrev pub is_preferred : Option String → String → Bool
  is_preferred none name = false
  is_preferred (some preferred) name = not (str_eq preferred "") && str_eq name preferred

  -- 1 - preferred_bonus_pct / 100
  abbrev pub bonus_factor : Decimal
  bonus_factor = sub (whole 1) (quotient router.preferred_bonus_pct (whole 100))

  abbrev base_score : RouteCandidate → Option Price
  base_score c =
      if is_preferred router.preferred_exchange c.route.first.exchange
      then mul_price c.effective_price bonus_factor
      else some c.effective_price

  unfoldable pub rescore : RouteCandidate → Option RouteCandidate
  rescore c =
      base_score c >>= λ s. mul_price s c.score_multiplier >>= λ s'. some (record c { score = s' })

  unfoldable pub rescore_all : List RouteCandidate → Option (List RouteCandidate)
  unfolding rescore
  rescore_all [] = some []
  rescore_all (c ∷ cs) = rescore c >>= λ c'. rescore_all cs >>= λ cs'. some (c' ∷ cs')

  abbrev pub by_score : RouteCandidate → RouteCandidate → Bool
  by_score c d = leb_price c.score d.score

  -- `-(c.quote_balance or Decimal(0))`
  abbrev pub balance_key : RouteCandidate → Decimal
  balance_key c = sub (whole 0) (get_or c.quote_balance (whole 0))

  -- The order of the pairs (balance key, score).
  abbrev pub by_balance : RouteCandidate → RouteCandidate → Bool
  by_balance c d =
      ltb_ℤ (balance_key c) (balance_key d)
      || (leb_ℤ (balance_key c) (balance_key d) && by_score c d)

  abbrev pub ranking : Bool → RouteCandidate → RouteCandidate → Bool
  ranking true = by_balance
  ranking false = by_score

  unfoldable pub apply_filters :
      List RouteCandidate → Option Decimal → Option (List RouteCandidate × List ExcludedRoute)
  unfolding minimum_filter spread_filter balance_filter rescore_all sort
  apply_filters candidates required =
      let (kept, excluded) = minimum_filter required candidates in
      let (usable, underfunded) = balance_filter required (spread_filter kept) in
      rescore_all usable >>= λ scored. some (sort (ranking underfunded) scored, excluded)
