-- ===== src/Arbitrage/Profit.antt =====
-- What an alert means.
use bitcoiners_dca.Prelude.{
  ℕ, zero, suc, ◌+◌, ◌≡◌, ◌≢◌, refl, sym, ap, Option, none, some, List, [], ◌∷◌, ◌==◌, arith, inl,
  inr, All, All-append, All-imp, Bool-cases, Option-cases,
}
use mathlib.Core.Path.{subst}
use mathlib.Core.Option.{some-injective}
use bitcoiners_dca.Prelude.Int.{pos, ◌≤ℤ◌, ◌<ℤ◌, leb_ℤ, ltb_ℤ}
use bitcoiners_dca.Prelude.Sort.{IsSorted, sort-IsSorted, sort-All}
use bitcoiners_dca.Decimal.{Decimal}
use bitcoiners_dca.Models.{Pair}
use bitcoiners_dca.Arbitrage.{
  ArbitrageOpportunity, ArbitrageMonitor, Quote, gross_spread_pct, net_profit_pct, judge, compare,
  against, scan, by_profit, detect, report,
}

-- The quote at a position.
abbrev pub at : List Quote → ℕ → Option Quote
at [] n = none
at (q ∷ qs) zero = some q
at (q ∷ qs) (suc n) = at qs n

-- The list from position j on.
abbrev Suffix : List Quote → ℕ → List Quote → Type 0
Suffix quotes j qs = (k : ℕ) → at qs k ≡ at quotes (j + k)

Suffix-head :
    (quotes : List Quote) (j : ℕ) (q : Quote) (qs : List Quote)
    → Suffix quotes j (q ∷ qs)
    → at quotes j ≡ some q
Suffix-head quotes j q qs h =
    let z : j + 0 ≡ j = omega arith in sym (subst (λ n. some q ≡ at quotes n) z (h 0))

Suffix-tail :
    (quotes : List Quote) (j : ℕ) (q : Quote) (qs : List Quote)
    → Suffix quotes j (q ∷ qs)
    → Suffix quotes (suc j) qs
Suffix-tail quotes j q qs h k =
    let z : j + suc k ≡ suc j + k = omega arith in subst (λ n. at qs k ≡ at quotes n) z (h (suc k))

Suffix-refl : (quotes : List Quote) → Suffix quotes 0 quotes
Suffix-refl quotes k = let z : k ≡ 0 + k = omega arith in ap (at quotes) z

module _ (m : ArbitrageMonitor) (pair : Pair) (now : ℕ) where
  -- An alert for buying on one quote's exchange and selling on another's: with their prices, a gap
  -- of at least the threshold, and a positive profit after all fees.
  abbrev pub Alerts : Quote → Quote → ArbitrageOpportunity → Type 0
  Alerts cheap expensive o =
      (gross_spread_pct cheap expensive ≡ some o.spread_pct)
      × (o
          ≡ report m pair now cheap expensive o.spread_pct
              (net_profit_pct m cheap expensive o.spread_pct))
      × (m.min_spread_pct ≤ℤ o.spread_pct)
      × (pos 0 <ℤ o.net_profit_pct_after_fees)

  judge-Alerts :
      (cheap expensive : Quote) (gross : Decimal)
      → gross_spread_pct cheap expensive ≡ some gross
      → All
          (Alerts cheap expensive)
          (judge m pair now cheap expensive gross (net_profit_pct m cheap expensive gross))
  unfolding judge
  judge-Alerts cheap expensive gross e = elim (Bool-cases (ltb_ℤ gross m.min_spread_pct)) [
    | inl low ↦ rw low tt
    | inr wide ↦ elim (Bool-cases (leb_ℤ (net_profit_pct m cheap expensive gross) (pos 0))) [
      | inl loss ↦ rw (wide, loss) tt
      | inr gain ↦ rw (wide, gain) ((e, refl, ground arith, ground arith), tt)
    ]
  ]

  -- Between the quotes at two different positions of the list.
  abbrev pub Between : List Quote → ArbitrageOpportunity → Type 0
  Between quotes o =
      (i : ℕ) × (j : ℕ) × (cheap : Quote) × (expensive : Quote) × (i ≢ j)
      × (at quotes i ≡ some cheap)
      × (at quotes j ≡ some expensive)
      × Alerts cheap expensive o

  compare-Alerts :
      (cheap expensive : Quote) (found : List ArbitrageOpportunity)
      → compare m pair now cheap expensive ≡ some found
      → All (Alerts cheap expensive) found
  unfolding compare
  compare-Alerts cheap expensive found e = elim (Option-cases (gross_spread_pct cheap expensive)) [
    | inl raises ↦ absurd (ground arith)
    | inr (gross, eg) ↦
        subst (All (Alerts cheap expensive)) (ground arith) (judge-Alerts cheap expensive gross eg)
  ]

  module _ (quotes : List Quote) where
    against-Between :
        (i : ℕ) (cheap : Quote) (j : ℕ) (qs : List Quote) (found : List ArbitrageOpportunity)
        → at quotes i ≡ some cheap
        → Suffix quotes j qs
        → against m pair now i cheap j qs ≡ some found
        → All (Between quotes) found
    unfolding against
    against-Between i cheap j [] found ei sx e =
        subst (All (Between quotes)) (some-injective _ _ e) tt
    against-Between i cheap j (q ∷ qs) found ei sx e = elim (Bool-cases (i == j)) [
      | inl same ↦
          against-Between i cheap (suc j) qs found ei (Suffix-tail quotes j q qs sx)
            (rw (same, against) at e)
      | inr apart ↦ elim (Option-cases (compare m pair now cheap q)) [
        | inl raises ↦ absurd (ground arith)
        | inr (here, eh) ↦ elim (Option-cases (against m pair now i cheap (suc j) qs)) [
          | inl raises ↦ absurd (ground arith)
          | inr (later, el) ↦
              let ij : i ≢ j = λ h. absurd (ground arith) in
              subst (All (Between quotes)) (ground arith) (
                All-append (Between quotes) here later
                  (All-imp (λ o a. (i, j, cheap, q, ij, ei, Suffix-head quotes j q qs sx, a)) here
                    (compare-Alerts cheap q here eh))
                  (against-Between i cheap (suc j) qs later ei (Suffix-tail quotes j q qs sx) el))
        ]
      ]
    ]

    scan-Between :
        (i : ℕ) (qs : List Quote) (found : List ArbitrageOpportunity)
        → Suffix quotes i qs
        → scan m pair now quotes i qs ≡ some found
        → All (Between quotes) found
    unfolding scan
    scan-Between i [] found sx e = subst (All (Between quotes)) (some-injective _ _ e) tt
    scan-Between i (q ∷ qs) found sx e = elim (Option-cases (against m pair now i q 0 quotes)) [
      | inl raises ↦ absurd (ground arith)
      | inr (here, eh) ↦ elim (Option-cases (scan m pair now quotes (suc i) qs)) [
        | inl raises ↦ absurd (ground arith)
        | inr (later, el) ↦ subst (All (Between quotes)) (ground arith) (
            All-append (Between quotes) here later
              (against-Between i q 0 quotes here (Suffix-head quotes i q qs sx) (Suffix-refl quotes)
                eh)
              (scan-Between (suc i) qs later (Suffix-tail quotes i q qs sx) el))
      ]
    ]

    -- The alerts come by falling profit. Each is for buying at one quote's exchange and selling at
    -- another's, with their prices, a gap of at least the threshold, and a profit that is positive
    -- after both taker fees, the withdrawal fee and the slippage buffer.
    pub detect-Between :
        (found : List ArbitrageOpportunity)
        → detect m pair now quotes ≡ some found
        → IsSorted (by_profit m pair now) found × All (Between quotes) found
    unfolding detect
    detect-Between found e = elim (Option-cases (scan m pair now quotes 0 quotes)) [
      | inl raises ↦ absurd (ground arith)
      | inr (all, ea) ↦
          subst (λ os. IsSorted (by_profit m pair now) os × All (Between quotes) os) (ground arith)
            (
              sort-IsSorted (by_profit m pair now) (λ a b h. ground arith)
                  (λ a b c h k. ground arith) all,
              sort-All _ (Between quotes) all (scan-Between 0 quotes all (Suffix-refl quotes) ea),
            )
    ]
