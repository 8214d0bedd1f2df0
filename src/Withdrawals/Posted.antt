-- ===== src/Withdrawals/Posted.antt =====
-- How many withdrawals reach BitOasis.
use bitcoiners_dca.Prelude.{ℕ, ◌≡◌, ◌⊎◌, inr, Bool, true, false, Option, none, some, List, ◌∷◌}
use bitcoiners_dca.Prelude.Text.{Text}
use bitcoiners_dca.Decimal.{Decimal}
use bitcoiners_dca.Bitoasis.{Refusal, refusal_for}
use bitcoiners_dca.Withdrawals.{Withdrawing, submitted, denied, errored, Request}
use bitcoiners_dca.Withdrawals.FromBinance.{is_refused}
use bitcoiners_dca.Withdrawals.FromBitoasis
use bitcoiners_dca.Withdrawals.FromBitoasis.{
  BitWithdrawal, Posting, unreachable, answered, BitWallet, judge_withdrawal,
}

-- The withdrawals before and after a request: one more after an answer that is no error, and at
-- most one more otherwise.
abbrev pub Answered : List Request → Request → Option Refusal → List Request → Type 0
Answered before request none after = after ≡ request ∷ before
Answered before request (some refusal) after = (after ≡ before) ⊎ (after ≡ request ∷ before)

abbrev pub PostRecorded : List Request → Request → Posting → List Request → Type 0
PostRecorded before request (unreachable signal) after =
    (after ≡ before) ⊎ (after ≡ request ∷ before)
PostRecorded before request (answered code signal parsed) after =
    Answered before request (refusal_for code) after

-- Exactly the request if it is reported as submitted, and at most the request otherwise.
abbrev pub PostedOnce : List Request → Request → Withdrawing → List Request → Type 0
PostedOnce before request (submitted x) after = after ≡ request ∷ before
PostedOnce before request denied after = (after ≡ before) ⊎ (after ≡ request ∷ before)
PostedOnce before request errored after = (after ≡ before) ⊎ (after ≡ request ∷ before)

on_error-PostedOnce :
    (before after : List Request) (request : Request) (signal : Bool)
    → (after ≡ before) ⊎ (after ≡ request ∷ before)
    → PostedOnce before request (FromBitoasis.on_error signal) after
on_error-PostedOnce before after request true h = h
on_error-PostedOnce before after request false h = h

judge_withdrawal-PostedOnce :
    (before after : List Request) (request : Request) (refusal : Option Refusal) (signal : Bool)
    (parsed : Option BitWithdrawal)
    → Answered before request refusal after
    → PostedOnce before request (judge_withdrawal request refusal signal parsed) after
judge_withdrawal-PostedOnce before after request (some refusal) signal parsed h =
    on_error-PostedOnce before after request signal h
judge_withdrawal-PostedOnce before after request none signal none h =
    on_error-PostedOnce before after request signal (inr h)
judge_withdrawal-PostedOnce before after request none signal (some raw) h = h

module _ (wallet : BitWallet) (sent : wallet.World → List Request)
    (posts : (r : Request) (w : wallet.World)
      → PostRecorded
          (sent w)
          r
          (wallet.post_withdrawal r w).0
          (sent (wallet.post_withdrawal r w).1))
    (now : ℕ) where
  on_posting-PostedOnce :
      (before : List Request) (request : Request) (p : Posting) (w : wallet.World)
      → PostRecorded before request p (sent w)
      → let r = FromBitoasis.on_posting wallet now request (p, w) in
        PostedOnce before request r.0 (sent r.1)
  on_posting-PostedOnce before request (unreachable signal) w h =
      on_error-PostedOnce before (sent w) request signal h
  on_posting-PostedOnce before request (answered code signal parsed) w h =
      judge_withdrawal-PostedOnce before (sent w) request (refusal_for code) signal parsed h

  -- A live withdrawal from BitOasis to a destination that it takes sends at most one request, and
  -- exactly one if it is reported as submitted.
  pub bitoasis_withdraw-PostedOnce :
      (amount : Decimal) (address network : Text) (w : wallet.World)
      → is_refused address network ≡ false
      → let r = FromBitoasis.withdraw_btc wallet now false amount address network w in
        PostedOnce (sent w) (FromBitoasis.request_for amount address network) r.0 (sent r.1)
  unfolding FromBitoasis.withdraw_btc
  bitoasis_withdraw-PostedOnce amount address network w taken =
      let request = FromBitoasis.request_for amount address network in
      rw taken (
        on_posting-PostedOnce (sent w) request (wallet.post_withdrawal request w).0
          (wallet.post_withdrawal request w).1 (posts request w))
