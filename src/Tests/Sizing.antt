-- ===== src/Tests/Sizing.antt =====
-- The overlays, the cadence and the arbitrage monitor on concrete settings.
use bitcoiners_dca.Prelude.{
  ℕ, ◌*◌, ◌-◌, ◌^◌, any, if◌then◌else◌, ◌≤◌, ◌≡◌, refl, String, Option, none, some, List, [], ◌∷◌,
  All, arith,
}
use bitcoiners_dca.Prelude.Int.{pos, negsuc}
use bitcoiners_dca.Prelude.Sort.{IsSorted}
use bitcoiners_dca.Decimal.{whole, literal, sub, mul, div}
use bitcoiners_dca.Overlays.{
  OverlayContext, OverlayResult, DrawdownTier, VolatilityWeighted, OnchainSmartTrigger, Overlay,
  apply_onchain, capped_multiplier, apply, buy_the_dip, onchain_smart_trigger,
}
use bitcoiners_dca.Overlays.Chain.{
  run_overlays, apply_all, changing, product_of, run_overlays-compounded,
}
use bitcoiners_dca.Strategy.Budget.{clamp_hours}
use bitcoiners_dca.Arbitrage.{ArbitrageMonitor, ArbitrageOpportunity, Quote, detect, by_profit}
use bitcoiners_dca.Arbitrage.Profit.{Between, detect-Between}
use bitcoiners_dca.Tests.Venue.{btc_aed, ticker_for}

-- 30% below the all-time high.
abbrev market : OverlayContext
market = record {
  local_hour = 12;
  base_amount_aed = whole 500;
  current_price_aed = some (whole 350_000);
  price_7d_ago_aed = some (whole 400_000);
  price_ath_aed = some (whole 500_000);
  realized_vol_30d_pct = some (whole 80);
  hourly_spread_history = [];
  onchain_signals = ("mvrv", whole 1) ∷ [];
}

abbrev tiers : List DrawdownTier
tiers =
    record { threshold_pct = negsuc (20 * 10 ^ 60 - 1); multiplier = literal 15 1 }
    ∷ record { threshold_pct = negsuc (40 * 10 ^ 60 - 1); multiplier = whole 2 }
    ∷ []

abbrev eager : OnchainSmartTrigger
eager = record {
  metric = "mvrv";
  boost_below = literal 12 1;
  boost_multiplier = whole 9;
  dampen_above = whole 3;
  dampen_multiplier = literal 1 1;
}

-- The configured multiplier 9 is capped.
capped : (apply_onchain eager market).multiplier ≡ whole 2
unfolding apply_onchain capped_multiplier
capped = refl

abbrev steady : VolatilityWeighted
steady = record {
  target_vol_pct = whole 50;
  slope = literal 1 2;
  min_factor = literal 5 1;
  max_factor = literal 15 1;
}

abbrev results_of : Option (List OverlayResult) → List OverlayResult
results_of none = []
results_of (some rs) = rs

abbrev chain : List Overlay
chain =
    buy_the_dip (record { threshold_pct = negsuc (10 * 10 ^ 60 - 1); multiplier = whole 3 })
    ∷ onchain_smart_trigger eager
    ∷ []

abbrev results : List OverlayResult
results = results_of (apply_all chain market)

all_apply : apply_all chain market ≡ some results
unfolding apply_all apply
all_apply = refl

run_overlays-compounded_example :
    run_overlays chain market (whole 500)
    ≡ some (
        if any (λ (r : OverlayResult). r.skip) results
        then none
        else some (product_of (whole 500) (changing results)))
run_overlays-compounded_example = run_overlays-compounded chain market (whole 500) results all_apply

five_hours : 3 ≤ clamp_hours (pos 5)
unfolding clamp_hours
five_hours = omega arith

abbrev quote_at : String → ℕ → ℕ → Quote
quote_at name bid ask = record {
  exchange = name;
  ticker = record (ticker_for btc_aed) { bid = whole bid; ask = whole ask };
  fees = record {
    exchange = name;
    pair = btc_aed;
    maker_pct = literal 1 3;
    taker_pct = literal 2 3;
    withdrawal_fee_btc = whole 0;
  };
}

abbrev quotes : List Quote
quotes = quote_at "okx" 399_000 400_000 ∷ quote_at "binance" 410_000 411_000 ∷ []

abbrev monitor : ArbitrageMonitor
monitor = record { min_spread_pct = literal 15 1; slippage_buffer_pct = literal 3 1 }

abbrev found_of : Option (List ArbitrageOpportunity) → List ArbitrageOpportunity
found_of none = []
found_of (some os) = os

abbrev alerts : List ArbitrageOpportunity
alerts = found_of (detect monitor btc_aed 0 quotes)

detects : detect monitor btc_aed 0 quotes ≡ some alerts
unfolding detect sub div mul
detects = refl

detect-Between_example :
    IsSorted (by_profit monitor btc_aed 0) alerts × All (Between monitor btc_aed 0 quotes) alerts
detect-Between_example = detect-Between monitor btc_aed 0 quotes alerts detects
