-- ===== src/Router/Market.antt =====
-- `SmartRouter._gather_market_data`. What an exchange answers is a parameter: a `Feed` holds the
-- result of each request, `none` being an exception. Balances are asked for at most twice.
use bitcoiners_dca.Prelude.{
  String, Bool, ◌||◌, Option, none, some, List, [], ◌∷◌, ◌++◌, map, if◌then◌else◌, str_eq, any,
}
use mathlib.Core.List.{flat_map}
use bitcoiners_dca.Decimal.{Decimal, whole, literal}
use bitcoiners_dca.Models.{Pair, same_pair, Ticker, Balance, FeeSchedule, OrderMinimum}
use bitcoiners_dca.Router.{ExchangeMarketData, SmartRouter, get_or}

pub record Feed : Type 0 where
  pub name : String
  pub get_ticker : Pair → Option Ticker
  pub get_fee_schedule : Pair → Option FeeSchedule
  -- The first and the second answer; inside, `none` is a missing balance.
  pub get_balance : String → Option (Option Balance)
  pub get_balance_again : String → Option (Option Balance)
  pub get_order_minimum : Pair → Option OrderMinimum

abbrev pub pair_of : String → String → Pair
pair_of base quote = record { base = base; quote = quote }

-- `i == quote_ccy or i == target_asset`
abbrev pub is_end : String → String → String → Bool
is_end target quote i = str_eq i quote || str_eq i target

module _ (router : SmartRouter) (target quote : String) where
  abbrev leg_pairs : String → List Pair
  leg_pairs i = if is_end target quote i then [] else pair_of i quote ∷ pair_of target i ∷ []

  abbrev cross_stable_pairs : String → List Pair
  cross_stable_pairs i =
      if is_end target quote i
      then []
      else flat_map (λ j. if str_eq j i || is_end target quote j then [] else pair_of j i ∷ [])
          router.intermediates

  -- `list(dict.fromkeys(...))`: the first of equal pairs stays.
  abbrev dedup_from : List Pair → List Pair → List Pair
  dedup_from seen [] = seen
  dedup_from seen (p ∷ ps) = dedup_from (if any (same_pair p) seen then seen else seen ++ p ∷ []) ps

  unfoldable pub pairs_to_try : List Pair
  unfolding same_pair
  pairs_to_try = dedup_from [] (
      pair_of target quote
      ∷ ((if router.enable_two_hop || router.enable_cross_exchange_alerts
            then flat_map leg_pairs router.intermediates
            else [])
          ++ (if router.enable_two_hop
              then flat_map cross_stable_pairs router.intermediates
              else [])))

  unfoldable pub ccys_to_balance : List String
  ccys_to_balance =
      quote ∷ flat_map (λ i. if is_end target quote i then [] else i ∷ []) router.intermediates

  abbrev free_of : Option Balance → Decimal
  free_of none = whole 0
  free_of (some b) = b.free

  -- A failed first answer is asked for again; a second failure leaves the key out.
  abbrev fetched_balance : Feed → String → Option Decimal
  fetched_balance ex c = elim (ex.get_balance c) [
    | some b ↦ some (free_of b)
    | none ↦ elim (ex.get_balance_again c) [ some b ↦ some (free_of b) | none ↦ none ]
  ]

  abbrev taker_of : Option FeeSchedule → Option Decimal
  taker_of none = none
  taker_of (some f) = some f.taker_pct

  abbrev tried {ℓ} : {A : Type ℓ} → (Pair → Option A) → Pair → Option A
  tried f p = if any (same_pair p) pairs_to_try then f p else none

  -- `for_one`
  unfoldable pub market_of : Feed → ExchangeMarketData
  unfolding pairs_to_try ccys_to_balance
  market_of ex = record {
    name = ex.name;
    tickers = tried ex.get_ticker;
    taker_pct = get_or (taker_of (ex.get_fee_schedule (pair_of target quote))) (literal 5 3);
    balances = λ c. if any (str_eq c) ccys_to_balance then fetched_balance ex c else none;
    minimums = tried ex.get_order_minimum;
    taker_pct_by_pair = tried (λ p. taker_of (ex.get_fee_schedule p));
  }

  unfoldable pub gather_market_data : List Feed → List ExchangeMarketData
  unfolding market_of
  gather_market_data exchanges = map market_of exchanges
