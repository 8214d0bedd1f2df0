-- ===== src/Withdrawals/Relayed.antt =====
-- How many withdrawals reach Binance, and which.
use mathlib.Core.Path.{subst}
use bitcoiners_dca.Prelude.{
  ℕ, ◌≡◌, refl, ◌⊎◌, inl, inr, Bool, true, false, Option, List, ◌∷◌, Bool-cases, ◌==◌,
}
use bitcoiners_dca.Prelude.Text.{Text}
use bitcoiners_dca.Decimal.{Decimal}
use bitcoiners_dca.Lightning.{is_lightning}
use bitcoiners_dca.Withdrawals.{
  Withdrawing, denied, Request, Reply, accepted, permission_denied, other_exception,
}
use bitcoiners_dca.Withdrawals.Sent.{Recorded, SentOnce}
use bitcoiners_dca.Withdrawals.FromBinance
use bitcoiners_dca.Withdrawals.FromBinance.{
  BinanceClient, LocalReply, answered, local_denied, local_exception, Questionnaire, RcvrInfo,
  is_refused, requirements_indicate_travel_rule,
}

-- The same for the call of the local entity: an answer that is not accepted sends nothing.
abbrev pub LocalRecorded : List Request → Request → LocalReply → List Request → Type 0
LocalRecorded before request (answered true id) after = after ≡ before
LocalRecorded before request (answered false id) after = after ≡ request ∷ before
LocalRecorded before request local_denied after = after ≡ before
LocalRecorded before request local_exception after = (after ≡ before) ⊎ (after ≡ request ∷ before)

not_refused :
    (address network : Text) → is_lightning address ≡ true → ¬ (is_refused address network ≡ false)
unfolding is_refused
not_refused address network l e = let l' = rw l at e in cc

-- What Binance promises: the probe adds nothing, and the two withdrawal calls what they report.
pub record BinanceRecords (client : BinanceClient) (sent : client.World → List Request)
    : Type 0 where
  pub withdraws :
      (r : Request) (w : client.World)
      → Recorded (sent w) r (client.withdraw r w).0 (sent (client.withdraw r w).1)
  pub local_withdraws :
      (q : Questionnaire) (r : Request) (w : client.World)
      → LocalRecorded
          (sent w)
          r
          (client.local_withdraw q r w).0
          (sent (client.local_withdraw q r w).1)
  pub probe_keeps : (r : Request) (w : client.World) → sent (client.requirements r w).1 ≡ sent w

module _ (client : BinanceClient) (sent : client.World → List Request)
    (records : BinanceRecords client sent) (now : ℕ) (rcvr_info : Option RcvrInfo)
    (request : Request) where
  abbrev Sends : List Request → Withdrawing × client.World → Type 0
  Sends before r = SentOnce before request r.0 (sent r.1)

  on_local-Sends :
      (before : List Request) (reply : LocalReply) (w : client.World)
      → LocalRecorded before request reply (sent w)
      → Sends before (FromBinance.on_local client now request (reply, w))
  on_local-Sends before local_denied w h = h
  on_local-Sends before local_exception w h = h
  on_local-Sends before (answered true id) w h = h
  on_local-Sends before (answered false id) w h = elim (Bool-cases (id == 0)) [
    | inl e ↦ rw e (inr h)
    | inr e ↦ rw e h
  ]

  via_local-Sends :
      (before : List Request) (w : client.World)
      → sent w ≡ before
      → Sends before (FromBinance.withdraw_via_localentity client now rcvr_info request w)
  unfolding FromBinance.withdraw_via_localentity
  via_local-Sends before w same =
      let q = FromBinance.build_uae_questionnaire rcvr_info in
      let r = client.local_withdraw q request w in
      on_local-Sends before r.0 r.1 (
        subst (λ l. LocalRecorded l request r.0 (sent r.1)) same
          (records.local_withdraws q request w))

  on_standard-Sends :
      (before : List Request) (reply : Reply) (w : client.World)
      → Recorded before request reply (sent w)
      → Sends before (FromBinance.on_standard client now rcvr_info request (reply, w))
  on_standard-Sends before (accepted id fee) w h = h
  on_standard-Sends before (permission_denied true) w h = via_local-Sends before w h
  on_standard-Sends before (permission_denied false) w h = h
  on_standard-Sends before other_exception w h = h

  after_probe-Sends :
      (before : List Request) (answer : Option Bool) (w : client.World)
      → sent w ≡ before
      → Sends before (FromBinance.after_probe client now rcvr_info request (answer, w))
  after_probe-Sends before answer w same =
      elim (Bool-cases (requirements_indicate_travel_rule answer)) [
        | inl e ↦ rw e (via_local-Sends before w same)
        | inr e ↦
            let r = client.withdraw request w in
            rw e (
              on_standard-Sends before r.0 r.1
                (subst (λ l. Recorded l request r.0 (sent r.1)) same (records.withdraws request w)))
      ]

module _ (client : BinanceClient) (sent : client.World → List Request)
    (records : BinanceRecords client sent) (now : ℕ) (amount : Decimal) (address network : Text)
    (rcvr_info : Option RcvrInfo) (w : client.World) where
  -- On an exchange that keeps these promises, a live withdrawal from Binance sends at most the
  -- request for the amount to the address, also where it is tried again through the local entity:
  -- exactly this if it reports a submitted withdrawal, and nothing if it is denied. A Lightning
  -- destination is denied, and sends nothing.
  pub binance_withdraw-SentOnce :
      let r = FromBinance.withdraw_btc client now false amount address network rcvr_info w in
      SentOnce (sent w) (FromBinance.request_for amount address network) r.0 (sent r.1)
      × (is_lightning address ≡ true → (r.0 ≡ denied) × (sent r.1 ≡ sent w))
  unfolding FromBinance.withdraw_btc
  binance_withdraw-SentOnce =
      let request = FromBinance.request_for amount address network in
      let probe = client.requirements request w in
      elim (Bool-cases (is_refused address network)) [
        | inl e ↦ rw e (refl, λ l. (refl, refl))
        | inr e ↦ rw e (
          after_probe-Sends client sent records now rcvr_info request (sent w) probe.0 probe.1
              (records.probe_keeps request w),
          λ l. absurd (not_refused address network l e),
        )
      ]
