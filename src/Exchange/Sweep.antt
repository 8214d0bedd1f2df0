-- ===== src/Exchange/Sweep.antt =====
-- What the sweep before a cycle cancels.
use bitcoiners_dca.Prelude.{
  ℕ, zero, suc, ◌+◌, ◌≡◌, refl, ap, ◌∙◌, arith, length, if◌then◌else◌, String, Bool, true, false,
  Option, none, some, List, [], ◌∷◌,
}
use bitcoiners_dca.Models.{Order}
use bitcoiners_dca.Strategy.{exchange_error, Result, ok, raise}
use bitcoiners_dca.Exchange.{
  OpenOrder, count_answer, sweep_one, sweep_orders, sweep_result, cancel_all_open_orders,
}

-- The ids of the orders that the bot placed.
abbrev pub own_id : Option String → Bool → List String → List String
own_id (some id) true ids = id ∷ ids
own_id _ _ ids = ids

abbrev pub own_ids : List OpenOrder → List String
own_ids [] = []
own_ids (o ∷ os) = own_id o.id o.tagged (own_ids os)

module _ {W : Type 0} (cancel : String → W → Result Order × W) where
  -- Cancelling a list of ids in turn, whatever each call answers.
  abbrev pub answers : List String → W → List (Result Order) × W
  answers [] w = ([], w)
  answers (id ∷ ids) w =
      let (answer, w') = cancel id w in let (later, w'') = answers ids w' in (answer ∷ later, w'')

  -- Whether every call cancelled its order.
  abbrev pub all_cancelled : List (Result Order) → Bool
  all_cancelled [] = true
  all_cancelled (ok o ∷ rest) = all_cancelled rest
  all_cancelled (raise e ∷ rest) = false

  abbrev tally : List (Result Order) → ℕ × ℕ → ℕ × ℕ
  tally [] counts = counts
  tally (a ∷ rest) counts = tally rest (count_answer cancel a counts)

  sweep_one-own_id :
      (id : Option String) (tagged : Bool) (os : List OpenOrder) (counts : ℕ × ℕ) (w : W)
      → ((counts' : ℕ × ℕ) (w' : W)
          → sweep_orders cancel os (counts', w')
            ≡ (tally (answers (own_ids os) w').0 counts', (answers (own_ids os) w').1))
      → sweep_orders cancel os (sweep_one cancel id tagged (counts, w)) ≡ (
        tally (answers (own_id id tagged (own_ids os)) w).0 counts,
        (answers (own_id id tagged (own_ids os)) w).1,
      )
  sweep_one-own_id none tagged os counts w h = h counts w
  sweep_one-own_id (some id) false os counts w h = h counts w
  sweep_one-own_id (some id) true os counts w h =
      h (count_answer cancel (cancel id w).0 counts) (cancel id w).1

  sweep_orders-own_ids :
      (os : List OpenOrder) (counts : ℕ × ℕ) (w : W)
      → sweep_orders cancel os (counts, w)
        ≡ (tally (answers (own_ids os) w).0 counts, (answers (own_ids os) w).1)
  unfolding sweep_orders
  sweep_orders-own_ids [] counts w = refl
  sweep_orders-own_ids (o ∷ os) counts w =
      sweep_one-own_id o.id o.tagged os counts w (sweep_orders-own_ids os)

  failed_before :
      (rs : List (Result Order)) (n failures : ℕ) (w : W)
      → (sweep_result cancel (tally rs (n, suc failures), w)) ≡ (raise exchange_error, w)
  failed_before [] n failures w = refl
  failed_before (ok o ∷ rs) n failures w = failed_before rs (n + 1) failures w
  failed_before (raise e ∷ rs) n failures w =
      let more : suc failures + 1 ≡ suc (suc failures) = omega arith in
      ap (λ k. sweep_result cancel (tally rs (n, k), w)) more ∙ failed_before rs n (suc failures) w

  tally-sweep_result :
      (rs : List (Result Order)) (n : ℕ) (w : W)
      → sweep_result cancel (tally rs (n, 0), w)
        ≡ ((if all_cancelled rs then ok (n + length rs) else raise exchange_error), w)
  tally-sweep_result [] n w = ap (λ k. (ok k, w)) (omega arith)
  tally-sweep_result (ok o ∷ rs) n w =
      tally-sweep_result rs (n + 1) w
      ∙ ap (λ k. ((if all_cancelled rs then ok k else raise exchange_error), w)) (omega arith)
  tally-sweep_result (raise e ∷ rs) n w =
      let one : 0 + 1 ≡ suc zero = omega arith in
      ap (λ k. sweep_result cancel (tally rs (n, k), w)) one ∙ failed_before rs n zero w

  length-answers : (ids : List String) (w : W) → length (answers ids w).0 ≡ length ids
  length-answers [] w = refl
  length-answers (id ∷ ids) w = ap suc (length-answers ids (cancel id w).1)

  -- The sweep tries to cancel exactly the open orders that carry the bot's tag and an id, in their
  -- order and each once, also after a failure; orders of the user are left alone. It returns the
  -- number of cancelled orders if no cancellation failed, and raises if one did.
  pub cancel_all_open_orders-own_ids :
      (os : List OpenOrder) (w : W)
      → cancel_all_open_orders cancel (some os) w ≡ (
        if all_cancelled (answers (own_ids os) w).0
            then ok (length (own_ids os))
            else raise exchange_error,
        (answers (own_ids os) w).1,
      )
  unfolding cancel_all_open_orders
  cancel_all_open_orders-own_ids os w =
      ap (sweep_result cancel) (sweep_orders-own_ids os (0, 0) w)
      ∙ tally-sweep_result (answers (own_ids os) w).0 0 (answers (own_ids os) w).1
      ∙ ap
          (λ k. (
            if all_cancelled (answers (own_ids os) w).0 then ok k else raise exchange_error,
            (answers (own_ids os) w).1,
          ))
          (omega (arith, length-answers (own_ids os) w))
