-- ===== src/Strategy/Balances.antt =====
-- `aggregate_balances` of src/bitcoiners_dca/core/strategy.py. `str.upper` is a parameter.
use bitcoiners_dca.Prelude.{String, ◌||◌, List, [], ◌∷◌, ◌++◌, if◌then◌else◌, str_eq}
use bitcoiners_dca.Decimal.{Decimal, whole, add}
use bitcoiners_dca.Models.{Balance}

pub record Buckets : Type 0 where
  pub aed : Decimal
  pub usd_stable : Decimal
  pub btc : Decimal

pub record BalanceSnapshot : Type 0 where
  pub total : Buckets
  pub per_exchange : List (String × Buckets)
  pub errors : List String

abbrev pub nothing : Buckets
nothing = record { aed = whole 0; usd_stable = whole 0; btc = whole 0 }

-- The bucket of an upper-case asset code.
pub data Bucket : Type 0 where
  fiat stable_usd bitcoin ignored : Bucket

unfoldable pub bucket_of : String → Bucket
bucket_of asset =
    if str_eq asset "AED"
    then fiat
    else if str_eq asset "USDT" || (str_eq asset "USDC" || str_eq asset "USD")
    then stable_usd
    else if str_eq asset "BTC" || str_eq asset "XBT"
    then bitcoin
    else ignored

abbrev credit : Bucket → Decimal → Buckets → Buckets
credit fiat d b = record b { aed = add b.aed d }
credit stable_usd d b = record b { usd_stable = add b.usd_stable d }
credit bitcoin d b = record b { btc = add b.btc d }
credit ignored d b = b

module _ (upper : String → String) where
  -- The inner loop, over the rows of one exchange.
  unfoldable pub tally : Buckets → List Balance → Buckets
  unfolding bucket_of
  tally per [] = per
  tally per (b ∷ bs) = tally (credit (bucket_of (upper b.asset)) b.total per) bs

  abbrev add_buckets : Buckets → Buckets → Buckets
  add_buckets a b = record {
    aed = add a.aed b.aed;
    usd_stable = add a.usd_stable b.usd_stable;
    btc = add a.btc b.btc;
  }

  -- The outer loop, over the exchanges.
  unfoldable pub fold_exchanges : BalanceSnapshot → List (String × List Balance) → BalanceSnapshot
  unfolding tally
  fold_exchanges snap [] = snap
  fold_exchanges snap ((name, rows) ∷ rest) =
      let per = tally nothing rows in
      fold_exchanges
        (record snap {
          total = add_buckets snap.total per;
          per_exchange = snap.per_exchange ++ (name, per) ∷ [];
        })
        rest

  unfoldable pub aggregate_balances : List (String × List Balance) → BalanceSnapshot
  unfolding fold_exchanges
  aggregate_balances by_exchange =
      fold_exchanges (record { total = nothing; per_exchange = []; errors = [] }) by_exchange
