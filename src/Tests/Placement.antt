-- ===== src/Tests/Placement.antt =====
-- Placements on an exchange whose first answer is lost in a network error.
use bitcoiners_dca.Prelude.{ℕ, zero, suc, ◌+◌, ◌≡◌, refl, inr, false, Option, none, some, arith}
use bitcoiners_dca.Decimal.{whole}
use bitcoiners_dca.Models.{buy, market, filled}
use bitcoiners_dca.Strategy.{ok}
use bitcoiners_dca.Okx.{
  Client, Clock, RawOrder, Answer, answer, failed, network, closed, place_market_buy,
  place_limit_buy,
}
use bitcoiners_dca.Okx.Placement.{Landed, IsTruthful, Counts, BoughtOnce, place_buys-BoughtOnce}
use bitcoiners_dca.Bitoasis
use bitcoiners_dca.Bitoasis.{BitOrder, Reply, no_answer, answered}
use bitcoiners_dca.Bitoasis.Placing.{BitClient, place_market, place_limit}
use bitcoiners_dca.Bitoasis.Orders.{Posted, Bought, Keeps, place_buys-Bought}
use bitcoiners_dca.Tests.Venue.{btc_aed, order_for}

abbrev pub raw_order : RawOrder
raw_order = record {
  id = 7;
  status = closed;
  side = buy;
  type = market;
  amount = some (whole 1);
  filled = some (whole 1);
  average = some (whole 400_000);
  price = none;
  fee = none;
  timestamp = some 1000;
}

-- The orders placed, and the calls so far.
abbrev lossy_create : ℕ × ℕ → Answer RawOrder × (ℕ × ℕ)
lossy_create (placed, zero) = (failed network, (placed + 1, 1))
lossy_create (placed, suc calls) = (answer raw_order, (placed + 1, suc (suc calls)))

abbrev find : ℕ × ℕ → Answer (Option RawOrder) × (ℕ × ℕ)
find (zero, calls) = (answer none, (zero, calls))
find (suc placed, calls) = (answer (some raw_order), (suc placed, calls))

abbrev lossy : Client
lossy = record {
  World = ℕ × ℕ;
  create_market_buy_order = λ id p a w. lossy_create w;
  create_limit_buy_order = λ id p a b w. lossy_create w;
  fetch_order = λ id p w. find w;
  get_order = λ p n w. (ok (order_for p (whole 100) filled (some (whole 1))), w);
  ask = λ p w. ok (whole 400_000);
}

create-Landed : (w : ℕ × ℕ) → Landed w.0 (lossy_create w).0 (lossy_create w).1.0
create-Landed (n, zero) = omega arith
create-Landed (n, suc calls) = refl

find-IsTruthful : (w : ℕ × ℕ) → IsTruthful (find w).0 (find w).1.0
find-IsTruthful (zero, calls) = refl
find-IsTruthful (suc n, calls) = omega arith

find-keeps : (w : ℕ × ℕ) → (find w).1.0 ≡ w.0
find-keeps (zero, calls) = refl
find-keeps (suc n, calls) = refl

lossy-Counts : Counts lossy "bdca1" (λ w. w.0)
lossy-Counts = record {
  market_lands = λ p a w. create-Landed w;
  limit_lands = λ p a b w. create-Landed w;
  lookup_truthful = λ p w. find-IsTruthful w;
  lookup_keeps = λ p w. find-keeps w;
  get_keeps = λ p n w. refl;
}

abbrev pub clock : Clock
clock = record { now = 1000; dry_id = 1 }

-- The order whose answer was lost is found and not placed again.
lossy_once : (place_market_buy lossy clock false "bdca1" btc_aed (whole 100) (0, 0)).1 ≡ (1, 1)
unfolding place_market_buy
lossy_once = refl

place_buys-BoughtOnce_example :
    BoughtOnce
      (place_market_buy lossy clock false "bdca1" btc_aed (whole 100) (0, 0)).0
      (place_market_buy lossy clock false "bdca1" btc_aed (whole 100) (0, 0)).1.0
    × BoughtOnce
        (place_limit_buy lossy clock false "bdca1" btc_aed (whole 100) (whole 390_000) (0, 0)).0
        (place_limit_buy lossy clock false "bdca1" btc_aed (whole 100) (whole 390_000) (0, 0)).1.0
place_buys-BoughtOnce_example =
    place_buys-BoughtOnce lossy "bdca1" (λ w. w.0) lossy-Counts clock btc_aed (whole 100)
      (whole 390_000) (0, 0) refl

abbrev raw_bit_order : BitOrder
raw_bit_order = record {
  id = 9;
  status = Bitoasis.open_order;
  side = buy;
  type = market;
  base_amount = some (whole 1);
  executed_amount = none;
  avg_execution_price = none;
  price = none;
  fee = none;
  date_created = none;
}

-- The first post is lost after it has arrived, and the others are answered.
abbrev post : ℕ → Reply BitOrder × ℕ
post zero = (no_answer, 1)
post (suc n) = (answered 200 false (some raw_bit_order), suc n + 1)

abbrev bit_client : BitClient
bit_client = record {
  World = ℕ;
  post_order = λ p t a price w. post w;
  get_order = λ p n w. (ok (order_for p (whole 100) filled (some (whole 1))), w);
  ask = λ p w. ok (whole 400_000);
}

post-Posted : (n : ℕ) → Posted n (post n).0 (post n).1
post-Posted zero = omega arith
post-Posted (suc n) = (omega arith, inr refl)

bit_client-Keeps : Keeps bit_client (λ n. n)
bit_client-Keeps = record { posts = λ p t a price w. post-Posted w; get_keeps = λ p n w. refl }

place_buys-Bought_example :
    Bought 0
      (place_market bit_client 5 false 1 btc_aed (whole 100) 0).0
      (place_market bit_client 5 false 1 btc_aed (whole 100) 0).1
    × Bought 0
        (place_limit bit_client 5 false 1 btc_aed (whole 100) (whole 390_000) 0).0
        (place_limit bit_client 5 false 1 btc_aed (whole 100) (whole 390_000) 0).1
place_buys-Bought_example =
    place_buys-Bought bit_client 5 (λ n. n) bit_client-Keeps 1 btc_aed (whole 100) (whole 390_000) 0
