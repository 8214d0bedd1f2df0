-- ===== src/Tests/Prices.antt =====
-- The history of prices on two points.
use bitcoiners_dca.Prelude.{◌*◌, ◌≡◌, refl, some, List, [], ◌∷◌}
use bitcoiners_dca.Decimal.{whole}
use bitcoiners_dca.MarketData.{PricePoint, missing, cached, fetch, nearest_price}

abbrev points : List PricePoint
points =
    record { timestamp = 10 * 86_400; price = whole 400_000 }
    ∷ record { timestamp = 13 * 86_400; price = whole 410_000 }
    ∷ []

-- One day before 14 is nearer than four days.
nearest_to_14 : nearest_price points 14 ≡ some (whole 410_000)
unfolding nearest_price
nearest_to_14 = refl

fetched : fetch 365 5000 (some points) missing ≡ (some points, cached 5000 points)
unfolding fetch
fetched = refl
