-- ===== src/Overlays.antt =====
-- src/bitcoiners_dca/strategies: what every overlay sees and returns, and the overlays. `none` is
-- an exception of the decimal arithmetic. The local hour, which the time zone database computes, is
-- part of the context, and the texts of the notes are left out.
pub mod Bounds
pub mod Drawdown
pub mod Chain
use bitcoiners_dca.Prelude.{
  ℕ, String, Bool, true, false, Option, none, some, List, [], ◌∷◌, map, if◌then◌else◌, ◌>>=◌, ◌==◌,
  str_eq, any, length,
}
use bitcoiners_dca.Prelude.Int.{ltb_ℤ, leb_ℤ}
use bitcoiners_dca.Prelude.Sort.{sort}
use bitcoiners_dca.Decimal.{
  Decimal, whole, literal, add, sub, mul, div, quotient, min_of, max_of, sum_from,
}
use bitcoiners_dca.Models.{positive}

pub record OverlayContext : Type 0 where
  pub local_hour : ℕ
  pub base_amount_aed : Decimal
  pub current_price_aed : Option Decimal
  pub price_7d_ago_aed : Option Decimal
  pub price_ath_aed : Option Decimal
  pub realized_vol_30d_pct : Option Decimal
  pub hourly_spread_history : List (ℕ × Decimal)
  pub onchain_signals : List (String × Decimal)

pub record OverlayResult : Type 0 where
  pub multiplier : Decimal
  pub skip : Bool

abbrev pub unchanged : OverlayResult
unchanged = record { multiplier = whole 1; skip = false }

abbrev pub scaled : Decimal → OverlayResult
scaled m = record { multiplier = m; skip = false }

abbrev pub skipped : OverlayResult
skipped = record { multiplier = whole 1; skip = true }

-- (now - then) / then * 100, for a positive `then`.
unfoldable pub change_pct : Decimal → Decimal → Decimal
change_pct now before = mul (quotient (sub now before) before) (whole 100)

pub record BuyTheDip : Type 0 where
  pub threshold_pct : Decimal
  pub multiplier : Decimal

abbrev dip_on : BuyTheDip → Option Decimal → Option Decimal → OverlayResult
dip_on o (some now) (some before) =
    if positive before
    then if leb_ℤ (change_pct now before) o.threshold_pct then scaled o.multiplier else unchanged
    else unchanged
dip_on o _ _ = unchanged

-- `BuyTheDipOverlay.apply`
unfoldable pub apply_dip : BuyTheDip → OverlayContext → OverlayResult
apply_dip o ctx = dip_on o ctx.current_price_aed ctx.price_7d_ago_aed

pub record DrawdownTier : Type 0 where
  pub threshold_pct : Decimal
  pub multiplier : Decimal

abbrev pub by_threshold : DrawdownTier → DrawdownTier → Bool
by_threshold t u = leb_ℤ t.threshold_pct u.threshold_pct

abbrev pub first_match : Decimal → List DrawdownTier → OverlayResult
first_match drawdown [] = unchanged
first_match drawdown (t ∷ ts) =
    if leb_ℤ drawdown t.threshold_pct then scaled t.multiplier else first_match drawdown ts

abbrev drawdown_on : List DrawdownTier → Option Decimal → Option Decimal → OverlayResult
drawdown_on tiers (some now) (some ath) =
    if positive ath then first_match (change_pct now ath) (sort by_threshold tiers) else unchanged
drawdown_on tiers _ _ = unchanged

-- `DrawdownOverlay.apply`
unfoldable pub apply_drawdown : List DrawdownTier → OverlayContext → OverlayResult
apply_drawdown tiers ctx = drawdown_on tiers ctx.current_price_aed ctx.price_ath_aed

-- `if factor < low: low elif factor > high: high`
abbrev pub clamp : Decimal → Decimal → Decimal → Decimal
clamp low high factor = if ltb_ℤ factor low then low else if ltb_ℤ high factor then high else factor

pub record VolatilityWeighted : Type 0 where
  pub target_vol_pct : Decimal
  pub slope : Decimal
  pub min_factor : Decimal
  pub max_factor : Decimal

abbrev volatility_on : VolatilityWeighted → Option Decimal → OverlayResult
volatility_on o none = unchanged
volatility_on o (some vol) =
    scaled
      (clamp o.min_factor o.max_factor (add (whole 1) (mul o.slope (sub o.target_vol_pct vol))))

-- `VolatilityWeightedOverlay.apply`; a factor of 1 is the unchanged result.
unfoldable pub apply_volatility : VolatilityWeighted → OverlayContext → OverlayResult
apply_volatility o ctx = volatility_on o ctx.realized_vol_30d_pct

-- A dictionary's `get`, on its items.
abbrev pub signal : List (String × Decimal) → String → Option Decimal
signal [] k = none
signal ((j, v) ∷ kvs) k = if str_eq j k then some v else signal kvs k

pub record OnchainSmartTrigger : Type 0 where
  pub metric : String
  pub boost_below : Decimal
  pub boost_multiplier : Decimal
  pub dampen_above : Decimal
  pub dampen_multiplier : Decimal

-- `max(_MIN_MULTIPLIER, min(_MAX_MULTIPLIER, m))`
unfoldable pub capped_multiplier : Decimal → Decimal
capped_multiplier m = max_of (literal 5 1) (min_of (literal 20 1) m)

abbrev onchain_on : OnchainSmartTrigger → Option Decimal → OverlayResult
onchain_on o none = unchanged
onchain_on o (some value) =
    if leb_ℤ value o.boost_below
    then scaled (capped_multiplier o.boost_multiplier)
    else if leb_ℤ o.dampen_above value
    then scaled (capped_multiplier o.dampen_multiplier)
    else unchanged

-- `OnchainSmartTriggerOverlay.apply`
unfoldable pub apply_onchain : OnchainSmartTrigger → OverlayContext → OverlayResult
apply_onchain o ctx = onchain_on o (signal ctx.onchain_signals o.metric)

pub record TimeOfDay : Type 0 where
  pub mode : String
  pub preferred_hours : List ℕ
  pub spread_scale_min : Decimal
  pub spread_scale_max : Decimal

abbrev hour_spread : List (ℕ × Decimal) → ℕ → Option Decimal
hour_spread [] h = none
hour_spread ((j, v) ∷ kvs) h = if j == h then some v else hour_spread kvs h

-- The mean of the hourly spreads, of a table that is not empty.
unfoldable pub mean_spread : List (ℕ × Decimal) → Decimal
mean_spread history =
    quotient (sum_from (whole 0) (map (λ (kv : ℕ × Decimal). kv.1) history))
      (whole (length history))

abbrev scale_on : TimeOfDay → Decimal → Option Decimal → Option OverlayResult
scale_on o overall none = some unchanged
scale_on o overall (some median) =
    if positive overall
    then (div overall median >>= λ f. some (scaled (clamp o.spread_scale_min o.spread_scale_max f)))
    else some unchanged

abbrev scale_by_spread : TimeOfDay → List (ℕ × Decimal) → ℕ → Option OverlayResult
scale_by_spread o [] hour = some unchanged
scale_by_spread o (kv ∷ kvs) hour =
    scale_on o (mean_spread (kv ∷ kvs)) (hour_spread (kv ∷ kvs) hour)

-- `TimeOfDayOverlay.apply`
unfoldable pub apply_time_of_day : TimeOfDay → OverlayContext → Option OverlayResult
unfolding mean_spread
apply_time_of_day o ctx =
    if str_eq o.mode "skip_if_not_best"
    then some (if any (λ h. h == ctx.local_hour) o.preferred_hours then unchanged else skipped)
    else if str_eq o.mode "scale_by_spread"
    then scale_by_spread o ctx.hourly_spread_history ctx.local_hour
    else some unchanged

pub data Overlay : Type 0 where
  buy_the_dip : BuyTheDip → Overlay
  drawdown_aware : List DrawdownTier → Overlay
  volatility_weighted : VolatilityWeighted → Overlay
  onchain_smart_trigger : OnchainSmartTrigger → Overlay
  time_of_day : TimeOfDay → Overlay

unfoldable pub apply : Overlay → OverlayContext → Option OverlayResult
unfolding apply_dip apply_drawdown apply_volatility apply_onchain apply_time_of_day
apply (buy_the_dip o) ctx = some (apply_dip o ctx)
apply (drawdown_aware tiers) ctx = some (apply_drawdown tiers ctx)
apply (volatility_weighted o) ctx = some (apply_volatility o ctx)
apply (onchain_smart_trigger o) ctx = some (apply_onchain o ctx)
apply (time_of_day o) ctx = apply_time_of_day o ctx
