-- ===== src/Arbitrage.antt =====
-- src/bitcoiners_dca/core/arbitrage.py: the price gaps between exchanges. The quotes are those that
-- were fetched without an exception. `none` is an exception of the decimal arithmetic, which ends
-- the detection.
pub mod Profit
use bitcoiners_dca.Prelude.{
  ℕ, suc, String, Bool, Option, some, List, [], ◌∷◌, ◌++◌, ◌==◌, if◌then◌else◌, ◌>>=◌,
}
use bitcoiners_dca.Prelude.Int.{pos, ltb_ℤ, leb_ℤ}
use bitcoiners_dca.Prelude.Sort.{sort}
use bitcoiners_dca.Decimal.{Decimal, whole, literal, sub, mul, div}
use bitcoiners_dca.Models.{Pair, Ticker, FeeSchedule, nonzero}

pub record ArbitrageOpportunity : Type 0 where
  pub pair : Pair
  pub cheap_exchange : String
  pub cheap_ask : Decimal
  pub expensive_exchange : String
  pub expensive_bid : Decimal
  pub spread_pct : Decimal
  pub net_profit_pct_after_fees : Decimal
  pub timestamp : ℕ

pub record ArbitrageMonitor : Type 0 where
  pub min_spread_pct : Decimal
  pub slippage_buffer_pct : Decimal

-- What `_fetch` returns.
pub record Quote : Type 0 where
  pub exchange : String
  pub ticker : Ticker
  pub fees : FeeSchedule

unfoldable pub gross_spread_pct : Quote → Quote → Option Decimal
gross_spread_pct cheap expensive =
    div (sub expensive.ticker.bid cheap.ticker.ask) cheap.ticker.ask >>= λ r.
    some (mul r (whole 100))

-- `cheap_f.withdrawal_fee_btc or Decimal("0.0005")`
abbrev withdrawal_fee : Decimal → Decimal
withdrawal_fee d = if nonzero d then d else literal 5 4

unfoldable pub net_profit_pct : ArbitrageMonitor → Quote → Quote → Decimal → Decimal
net_profit_pct m cheap expensive gross =
    sub
      (sub
        (sub (sub gross (mul cheap.fees.taker_pct (whole 100)))
          (mul expensive.fees.taker_pct (whole 100)))
        (mul (withdrawal_fee cheap.fees.withdrawal_fee_btc) (whole 100)))
      m.slippage_buffer_pct

module _ (m : ArbitrageMonitor) (pair : Pair) (now : ℕ) where
  abbrev report : Quote → Quote → Decimal → Decimal → ArbitrageOpportunity
  report cheap expensive gross net = record {
    pair = pair;
    cheap_exchange = cheap.exchange;
    cheap_ask = cheap.ticker.ask;
    expensive_exchange = expensive.exchange;
    expensive_bid = expensive.ticker.bid;
    spread_pct = gross;
    net_profit_pct_after_fees = net;
    timestamp = now;
  }

  -- The two tests of the loop's body.
  unfoldable pub judge : Quote → Quote → Decimal → Decimal → List ArbitrageOpportunity
  judge cheap expensive gross net =
      if ltb_ℤ gross m.min_spread_pct
      then []
      else if leb_ℤ net (pos 0)
      then []
      else report cheap expensive gross net ∷ []

  unfoldable pub compare : Quote → Quote → Option (List ArbitrageOpportunity)
  unfolding gross_spread_pct net_profit_pct judge
  compare cheap expensive = gross_spread_pct cheap expensive >>= λ gross.
      some (judge cheap expensive gross (net_profit_pct m cheap expensive gross))

  -- The inner loop, from index j on.
  unfoldable pub against : ℕ → Quote → ℕ → List Quote → Option (List ArbitrageOpportunity)
  unfolding compare
  against i cheap j [] = some []
  against i cheap j (q ∷ qs) =
      let rest = against i cheap (suc j) qs in
      if i == j then rest else (compare cheap q >>= λ found. rest >>= λ more. some (found ++ more))

  -- The outer loop, from index i on.
  unfoldable pub scan : List Quote → ℕ → List Quote → Option (List ArbitrageOpportunity)
  unfolding against
  scan quotes i [] = some []
  scan quotes i (q ∷ qs) =
      against i q 0 quotes >>= λ found. scan quotes (suc i) qs >>= λ more. some (found ++ more)

  abbrev pub by_profit : ArbitrageOpportunity → ArbitrageOpportunity → Bool
  by_profit a b = leb_ℤ b.net_profit_pct_after_fees a.net_profit_pct_after_fees

  -- `ArbitrageMonitor.detect`
  unfoldable pub detect : List Quote → Option (List ArbitrageOpportunity)
  unfolding scan sort
  detect quotes = scan quotes 0 quotes >>= λ found. some (sort by_profit found)
