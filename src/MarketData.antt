-- ===== src/MarketData.antt =====
-- src/bitcoiners_dca/core/market_data.py and core/historical_prices.py: the history of prices with
-- its file cache, and the snapshot of the market for the overlays. The answer of CoinGecko is a
-- parameter, and so is the volatility, which is computed in floats. Instants are seconds, days are
-- numbered from 1970, and the directory holds one cache file for each currency and length.
pub mod Nearest
pub mod Cache
use bitcoiners_dca.Prelude.{
  ℕ, zero, suc, ◌+◌, ◌-◌, ◌*◌, ◌/◌, String, Bool, true, false, ◌&&◌, Option, none, some, List, [],
  ◌∷◌, keep, length, leb, ltb, if◌then◌else◌, ◌==◌,
}
use bitcoiners_dca.Decimal.{Decimal, max_of}

pub record PricePoint : Type 0 where
  pub timestamp : ℕ
  pub price : Decimal

-- `PricePoint.day`
abbrev pub day_of : PricePoint → ℕ
day_of p = p.timestamp / 86_400

-- A cache file that is not there, one that cannot be read, and its contents.
pub data CacheFile : Type 0 where
  missing stale : CacheFile
  cached : ℕ → List PricePoint → CacheFile

abbrev pub cache_ttl_seconds : ℕ
cache_ttl_seconds = 3600

abbrev pub free_tier_max_days : ℕ
free_tier_max_days = 365

-- `_read_cache`, at the time `now`
unfoldable pub read_cache : ℕ → CacheFile → Option (List PricePoint)
read_cache now missing = none
read_cache now stale = none
read_cache now (cached fetched_at points) =
    if ltb cache_ttl_seconds (now - fetched_at) then none else some points

-- `none` is a HistoricalPricesError.
abbrev pub on_answer :
    ℕ → Option (List PricePoint) → CacheFile → Option (List PricePoint) × CacheFile
on_answer now none file = (none, file)
on_answer now (some []) file = (none, file)
on_answer now (some (p ∷ points)) file = (some (p ∷ points), cached now (p ∷ points))

abbrev pub on_cache :
    ℕ
    → Option (List PricePoint)
    → CacheFile
    → Option (List PricePoint)
    → Option (List PricePoint) × CacheFile
on_cache now answer file (some points) = (some points, file)
on_cache now answer file none = on_answer now answer file

-- `fetch`, with what CoinGecko would answer, and the file before and after.
unfoldable pub fetch :
    ℕ → ℕ → Option (List PricePoint) → CacheFile → Option (List PricePoint) × CacheFile
unfolding read_cache
fetch days now answer file =
    if ltb free_tier_max_days days
    then (none, file)
    else on_cache now answer file (read_cache now file)

abbrev from_day : Option ℕ → List PricePoint → List PricePoint
from_day none points = points
from_day (some d) points = keep (λ p. leb d (day_of p)) points

abbrev to_day : Option ℕ → List PricePoint → List PricePoint
to_day none points = points
to_day (some d) points = keep (λ p. leb (day_of p) d) points

-- `slice_range`
unfoldable pub slice_range : List PricePoint → Option ℕ → Option ℕ → List PricePoint
slice_range points from to = to_day to (from_day from points)

-- The first point of a day.
unfoldable pub price_on : List PricePoint → ℕ → Option Decimal
price_on [] d = none
price_on (p ∷ points) d =
    let rest = price_on points d in if day_of p == d then some p.price else rest

abbrev pub or_rest : Option Decimal → Option Decimal → Option Decimal
or_rest (some price) rest = some price
or_rest none rest = rest

-- The loop over the offsets from `offset` on, with so many left.
unfoldable pub nearest_from : List PricePoint → ℕ → ℕ → ℕ → Option Decimal
unfolding price_on
nearest_from points target zero offset = none
nearest_from points target (suc left) offset =
    or_rest (price_on points (target - offset))
      (or_rest (price_on points (target + offset)) (nearest_from points target left (suc offset)))

-- `_nearest_price`
unfoldable pub nearest_price : List PricePoint → ℕ → Option Decimal
unfolding nearest_from
nearest_price points target = nearest_from points target 4 0

pub record MarketSnapshot : Type 0 where
  pub price_7d_ago_aed : Option Decimal
  pub price_30d_ago_aed : Option Decimal
  pub price_ath_aed : Option Decimal
  pub realized_vol_30d_pct : Option Decimal

-- `max`
abbrev pub highest : Decimal → List PricePoint → Decimal
highest best [] = best
highest best (p ∷ points) = highest (max_of best p.price) points

module _ (volatility : List PricePoint → Option Decimal) where
  -- `_realized_vol_30d`; the volatility of too few points is none.
  unfoldable pub realized_vol_30d : List PricePoint → ℕ → Option Decimal
  realized_vol_30d points today =
      let recent = keep (λ p. leb (today - 30) (day_of p)) points in
      if ltb (length recent) 5 then none else volatility recent

  abbrev pub snapshot_of : List PricePoint → ℕ → MarketSnapshot
  snapshot_of [] today = record {
    price_7d_ago_aed = none;
    price_30d_ago_aed = none;
    price_ath_aed = none;
    realized_vol_30d_pct = none;
  }
  snapshot_of (p ∷ points) today = record {
    price_7d_ago_aed = nearest_price (p ∷ points) (today - 7);
    price_30d_ago_aed = nearest_price (p ∷ points) (today - 30);
    price_ath_aed = some (highest p.price points);
    realized_vol_30d_pct = realized_vol_30d (p ∷ points) today;
  }

  abbrev or_no_points : Option (List PricePoint) → List PricePoint
  or_no_points none = []
  or_no_points (some points) = points

  -- `_build_snapshot`, with the history's answer.
  unfoldable pub build_snapshot : Option (List PricePoint) → ℕ → MarketSnapshot
  unfolding realized_vol_30d nearest_price
  build_snapshot answer now = snapshot_of (or_no_points answer) (now / 86_400)

  -- What the provider keeps: a snapshot with the time until which it serves.
  abbrev pub Provider : Type 0
  Provider = Option (MarketSnapshot × ℕ)

  abbrev pub six_hours : ℕ
  six_hours = 6 * 3600

  abbrev renewed : Option (List PricePoint) → ℕ → MarketSnapshot × Provider
  renewed answer now = let snap = build_snapshot answer now in (snap, some (snap, now + six_hours))

  -- `snapshot`
  unfoldable pub snapshot : ℕ → Option (List PricePoint) → Provider → MarketSnapshot × Provider
  unfolding build_snapshot
  snapshot now answer none = renewed answer now
  snapshot now answer (some (snap, until)) =
      if ltb now until then (snap, some (snap, until)) else renewed answer now
