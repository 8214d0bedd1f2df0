-- ===== src/Strategy/Exposure.antt =====
-- What one hop can spend. The interface states what venues promise of the money behind orders.
use bitcoiners_dca.Prelude.{
  ℕ, String, ◌+◌, ◌≤◌, ◌≡◌, refl, Bool, true, false, arith, inl, inr, Bool-cases,
}
use bitcoiners_dca.Prelude.Int.{pos_part}
use bitcoiners_dca.Decimal.{Decimal}
use bitcoiners_dca.Models.{Pair, Order, positive}
use bitcoiners_dca.Routing.{TradeHop}
use bitcoiners_dca.Strategy.{
  Result, ok, raise, Venues, ExecutionMode, taker, maker_only, maker_fallback, StrategyConfig,
  base_of, is_filled, is_dead, settle, decide, follow_limit, execute_hop, after_cancel, refetched,
  place_limit, in_mode, some_order, when_unfilled, after_wait, after_placing,
}

module _ (v : Venues) where
  open v use {World}

  -- A limit order that was accepted owes at most its amount, and that is all that it adds.
  abbrev pub Accepts :
      (World → ℕ) → (World → String → ℕ → ℕ) → String → ℕ → World → Result Order × World → Type 0
  Accepts exposure owed name amount w (ok o, w') =
      (owed w' name o.order_id ≤ amount) × (exposure w' ≤ exposure w + owed w' name o.order_id)
  Accepts exposure owed name amount w (raise e, w') = exposure w' ≤ exposure w + amount

  -- A cancelled or rejected order with nothing filled has spent nothing and can spend no more.
  abbrev pub Releases :
      (World → ℕ) → (World → String → ℕ → ℕ) → String → ℕ → World → Result Order × World → Type 0
  Releases exposure owed name id w (ok o, w') =
      (exposure w' ≤ exposure w)
      × (is_dead o.status ≡ true
          → positive (base_of o.amount_base) ≡ false
          → exposure w' + owed w name id ≤ exposure w)
  Releases exposure owed name id w (raise e, w') = exposure w' ≤ exposure w

-- `exposure` is what the bot's orders have spent or can still spend, in units of the currency that
-- they pay with; `owed` is the share of one order.
pub record Promises (v : Venues) : Type 0 where
  pub exposure : v.World → ℕ
  pub owed : v.World → String → ℕ → ℕ
  pub market_law :
      (name : String) (p : Pair) (a : Decimal) (w : v.World)
      → exposure (v.place_market_buy name p a w).1 ≤ exposure w + pos_part a
  pub limit_law :
      (name : String) (p : Pair) (a price : Decimal) (w : v.World)
      → Accepts v exposure owed name (pos_part a) w (v.place_limit_buy name p a price w)
  pub wait_law :
      (name : String) (p : Pair) (id timeout : ℕ) (w : v.World)
      → (exposure (v.wait_for_fill name p id timeout w).1 ≤ exposure w)
        × (owed (v.wait_for_fill name p id timeout w).1 name id ≡ owed w name id)
  pub cancel_law :
      (name : String) (p : Pair) (id : ℕ) (w : v.World)
      → Releases v exposure owed name id w (v.cancel_order name p id w)
  pub get_law :
      (name : String) (p : Pair) (id : ℕ) (w : v.World)
      → exposure (v.get_order name p id w).1 ≤ exposure w

module _ (v : Venues) (promises : Promises v) where
  open v use {World}
  open promises use {exposure, owed, market_law, limit_law, wait_law, cancel_law, get_law}

  -- The exposure has not grown, and a confirmed death with nothing filled frees what was owed.
  abbrev Settles : String → ℕ → World → (Order × Bool) × World → Type 0
  Settles name id w ((o, confirmed), w') =
      (exposure w' ≤ exposure w)
      × (confirmed ≡ true
          → is_dead o.status ≡ true
          → positive (base_of o.amount_base) ≡ false
          → exposure w' + owed w name id ≤ exposure w)

  refetched_lem :
      (name : String) (id : ℕ) (last : Order) (w : World) (r : Result Order × World)
      → exposure r.1 ≤ exposure w
      → Settles name id w (refetched v last r)
  refetched_lem name id last w (ok o, w') h = (h, λ f. cc)
  refetched_lem name id last w (raise e, w') h = (h, λ f. cc)

  after_cancel_lem :
      (name : String) (p : Pair) (id : ℕ) (last : Order) (w : World) (r : Result Order × World)
      → Releases v exposure owed name id w r
      → Settles name id w (after_cancel v name p id last r)
  after_cancel_lem name p id last w (ok o, w') h = (h.0, λ _. h.1)
  after_cancel_lem name p id last w (raise e, w') h =
      refetched_lem name id last w (v.get_order name p id w') (omega (arith, get_law name p id w'))

  settle-Settles :
      (name : String) (p : Pair) (id : ℕ) (last : Order) (w : World)
      → Settles name id w (settle v name p id last w)
  unfolding settle
  settle-Settles name p id last w =
      after_cancel_lem name p id last w (v.cancel_order name p id w) (cancel_law name p id w)

  abbrev Within : {A : Type 0} → World → ℕ → Result A × World → Type 0
  Within w amount r = exposure r.1 ≤ exposure w + amount

  some_order-Within :
      (w : World) (amount : ℕ) (r : Result Order × World)
      → Within w amount r
      → Within w amount (some_order v r)
  some_order-Within w amount (ok o, w') h = h
  some_order-Within w amount (raise e, w') h = h

  when_unfilled-Within :
      (mode : ExecutionMode) (hop : TradeHop) (a : Decimal) (o : Order) (confirmed : Bool)
      (base w : World)
      → exposure w ≤ exposure base + pos_part a
      → (confirmed ≡ true → is_dead o.status ≡ true → exposure w ≤ exposure base)
      → Within base (pos_part a) (when_unfilled v mode hop a o confirmed w)
  when_unfilled-Within taker hop a o confirmed base w h k = h
  when_unfilled-Within maker_only hop a o confirmed base w h k = h
  when_unfilled-Within maker_fallback hop a o false base w h k = h
  when_unfilled-Within maker_fallback hop a o true base w h k =
      elim (Bool-cases (is_dead o.status)) [
        | inl dead ↦ rw dead (
            some_order-Within base (pos_part a) (v.place_market_buy hop.exchange hop.pair a w)
              (omega (arith, market_law hop.exchange hop.pair a w, k refl dead)))
        | inr live ↦ rw live h
      ]

  decide-Within :
      (mode : ExecutionMode) (hop : TradeHop) (a : Decimal) (id : ℕ) (base w : World)
      (r : (Order × Bool) × World)
      → owed w hop.exchange id ≤ pos_part a
      → exposure w ≤ exposure base + owed w hop.exchange id
      → Settles hop.exchange id w r
      → Within base (pos_part a) (decide v mode hop a r)
  unfolding decide
  decide-Within mode hop a id base w ((o, confirmed), w') small bound s =
      elim (Bool-cases (is_filled o.status)) [
        | inl e ↦ rw e (omega arith)
        | inr e ↦ rw e (elim (Bool-cases (positive (base_of o.amount_base))) [
          | inl f ↦ rw f (omega arith)
          | inr f ↦ rw f (
              when_unfilled-Within mode hop a o confirmed base w' (omega arith)
                (λ c d. let freed = s.1 c d f in omega arith))
        ])
      ]

  after_wait-Within :
      (cfg : StrategyConfig) (hop : TradeHop) (a : Decimal) (id : ℕ) (base w : World)
      (r : Result Order × World)
      → owed w hop.exchange id ≤ pos_part a
      → exposure w ≤ exposure base + owed w hop.exchange id
      → (exposure r.1 ≤ exposure w) × (owed r.1 hop.exchange id ≡ owed w hop.exchange id)
      → Within base (pos_part a) (after_wait v cfg hop a id r)
  after_wait-Within cfg hop a id base w (raise e, w') small bound h = omega arith
  after_wait-Within cfg hop a id base w (ok last, w') small bound h =
      elim (Bool-cases (is_filled last.status)) [
        | inl e ↦ rw e (omega arith)
        | inr e ↦ rw e (
            decide-Within cfg.execution_mode hop a id base w' _ (omega arith) (omega arith)
              (settle-Settles hop.exchange hop.pair id last w'))
      ]

  follow_limit-Within :
      (cfg : StrategyConfig) (hop : TradeHop) (a : Decimal) (placed : Order) (base w : World)
      → owed w hop.exchange placed.order_id ≤ pos_part a
      → exposure w ≤ exposure base + owed w hop.exchange placed.order_id
      → Within base (pos_part a) (follow_limit v cfg hop a placed w)
  unfolding follow_limit
  follow_limit-Within cfg hop a placed base w small bound =
      elim (Bool-cases (is_filled placed.status)) [
        | inl e ↦ rw e (omega arith)
        | inr e ↦ rw e (
            after_wait-Within cfg hop a placed.order_id base w _ small bound
              (wait_law hop.exchange hop.pair placed.order_id cfg.maker_timeout_seconds w))
      ]

  after_placing-Within :
      (cfg : StrategyConfig) (hop : TradeHop) (a : Decimal) (w : World) (r : Result Order × World)
      → Accepts v exposure owed hop.exchange (pos_part a) w r
      → Within w (pos_part a) (after_placing v cfg hop a r)
  after_placing-Within cfg hop a w (raise e, w') h = h
  after_placing-Within cfg hop a w (ok o, w') h = follow_limit-Within cfg hop a o w w' h.0 h.1

  place_limit-Within :
      (cfg : StrategyConfig) (hop : TradeHop) (a : Decimal) (price : Result Decimal) (w : World)
      → Within w (pos_part a) (place_limit v cfg hop a price w)
  place_limit-Within cfg hop a (raise e) w = omega arith
  place_limit-Within cfg hop a (ok price) w =
      after_placing-Within cfg hop a w _ (limit_law hop.exchange hop.pair a price w)

  in_mode-Within :
      (mode : ExecutionMode) (cfg : StrategyConfig) (hop : TradeHop) (a : Decimal) (w : World)
      → Within w (pos_part a) (in_mode v mode cfg hop a w)
  in_mode-Within taker cfg hop a w =
      some_order-Within w (pos_part a) _ (market_law hop.exchange hop.pair a w)
  in_mode-Within maker_only cfg hop a w = place_limit-Within cfg hop a _ w
  in_mode-Within maker_fallback cfg hop a w = place_limit-Within cfg hop a _ w

  -- On venues that keep these promises, one hop exposes the account to at most its input amount:
  -- in every execution mode, whatever the venue answers, and also where the hop ends in an
  -- exception. A maker order that may still fill is never bought a second time.
  pub execute_hop-exposure :
      (cfg : StrategyConfig) (hop : TradeHop) (a : Decimal) (w : World)
      → exposure (execute_hop v cfg hop a w).1 ≤ exposure w + pos_part a
  unfolding execute_hop
  execute_hop-exposure cfg hop a w = in_mode-Within cfg.execution_mode cfg hop a w
