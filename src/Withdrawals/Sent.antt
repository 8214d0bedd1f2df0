-- ===== src/Withdrawals/Sent.antt =====
-- How many withdrawals reach OKX, and which.
use mathlib.Core.Path.{subst}
use bitcoiners_dca.Prelude.{
  ℕ, ◌≡◌, refl, ◌∙◌, ◌⊎◌, inl, inr, Bool, true, false, Option, none, some, List, ◌∷◌, Bool-cases,
  Option-cases, arith,
}
use bitcoiners_dca.Prelude.Int.{leb_ℤ}
use bitcoiners_dca.Prelude.Text.{Text, is_empty, strip, lower}
use bitcoiners_dca.Decimal.{Decimal, add, sub}
use bitcoiners_dca.Lightning.{
  WithdrawalNetwork, bitcoin, lightning, lightning_address, unknown, lnurl, detect_network,
}
use bitcoiners_dca.Withdrawals.{
  Withdrawing, submitted, denied, errored, Request, Reply, accepted, permission_denied,
  other_exception,
}
use bitcoiners_dca.Withdrawals.FromOkx
use bitcoiners_dca.Withdrawals.FromOkx.{
  OkxClient, Chain, inferred_chain, lightning_chain, bitcoin_chain, btc_bitcoin, btc_lightning,
  chain_for, is_lightning_name, is_bitcoin_name, resolve_chain, addr_for_detect,
}

-- The withdrawals of an exchange before and after a call: one more if it was accepted, none if it
-- was denied, and at most one after any other exception.
abbrev pub Recorded : List Request → Request → Reply → List Request → Type 0
Recorded before request (accepted id fee) after = after ≡ request ∷ before
Recorded before request (permission_denied travel) after = after ≡ before
Recorded before request other_exception after = (after ≡ before) ⊎ (after ≡ request ∷ before)

-- What is asked of a withdrawal as a whole: exactly the request if it is reported as submitted,
-- nothing if it is denied, and at most the request after another exception.
abbrev pub SentOnce : List Request → Request → Withdrawing → List Request → Type 0
SentOnce before request (submitted x) after = after ≡ request ∷ before
SentOnce before request denied after = after ≡ before
SentOnce before request errored after = (after ≡ before) ⊎ (after ≡ request ∷ before)

-- What OKX promises: only the call of `withdraw` adds to the withdrawals.
pub record OkxRecords (client : OkxClient) (sent : client.World → List Request) : Type 0 where
  pub withdraws :
      (r : Request) (w : client.World)
      → Recorded (sent w) r (client.withdraw r w).0 (sent (client.withdraw r w).1)
  pub currencies_keep : (w : client.World) → sent (client.fetch_currencies w).1 ≡ sent w
  pub balance_keeps : (w : client.World) → sent (client.funding_free w).1 ≡ sent w
  pub transfer_keeps : (a : Decimal) (w : client.World) → sent (client.transfer a w).1 ≡ sent w

-- The chain that fits the network that is asked for and the destination: Lightning, if no network
-- or Lightning is named, for an invoice or a Lightning address; Bitcoin for an address on the
-- chain, if no network or Bitcoin is named, and for an unknown destination only if Bitcoin is
-- named.
abbrev pub Fits : Text → Chain → WithdrawalNetwork → Type 0
Fits net btc_lightning d =
    ((is_empty net ≡ true) ⊎ (is_lightning_name net ≡ true))
    × ((d ≡ lightning) ⊎ (d ≡ lightning_address))
Fits net btc_bitcoin d =
    (((is_empty net ≡ true) ⊎ (is_bitcoin_name net ≡ true)) × (d ≡ bitcoin))
    ⊎ ((is_bitcoin_name net ≡ true) × (d ≡ unknown))

inferred-Fits :
    (net : Text) (d : WithdrawalNetwork) (chain : Chain)
    → is_empty net ≡ true
    → inferred_chain d ≡ some chain
    → Fits net chain d
inferred-Fits net d btc_lightning e h = (inl e, ground arith)
inferred-Fits net d btc_bitcoin e h = inl (inl e, ground arith)

lightning-Fits :
    (net : Text) (d : WithdrawalNetwork) (chain : Chain)
    → is_lightning_name net ≡ true
    → lightning_chain d ≡ some chain
    → Fits net chain d
lightning-Fits net d btc_lightning e h = (inr e, ground arith)
lightning-Fits net d btc_bitcoin e h = absurd (ground arith)

bitcoin-Fits :
    (net : Text) (d : WithdrawalNetwork) (chain : Chain)
    → is_bitcoin_name net ≡ true
    → bitcoin_chain d ≡ some chain
    → Fits net chain d
bitcoin-Fits net d btc_lightning e h = absurd (ground arith)
bitcoin-Fits net bitcoin btc_bitcoin e h = inl (inr e, refl)
bitcoin-Fits net unknown btc_bitcoin e h = inr (e, refl)
bitcoin-Fits net lightning btc_bitcoin e h = absurd (cc)
bitcoin-Fits net lightning_address btc_bitcoin e h = absurd (cc)
bitcoin-Fits net lnurl btc_bitcoin e h = absurd (cc)

chain_for-Fits :
    (d : WithdrawalNetwork) (net : Text) (chain : Chain)
    → chain_for d net ≡ some chain
    → Fits net chain d
chain_for-Fits d net chain h = elim (Bool-cases (is_empty net)) [
  | inl e ↦ inferred-Fits net d chain e (rw e at h)
  | inr e ↦
      let h1 = rw e at h in
      elim (Bool-cases (is_lightning_name net)) [
        | inl l ↦ lightning-Fits net d chain l (rw l at h1)
        | inr l ↦
            let h2 = rw l at h1 in
            elim (Bool-cases (is_bitcoin_name net)) [
              | inl b ↦ bitcoin-Fits net d chain b (rw b at h2)
              | inr b ↦ absurd (let h3 : none ≡ some chain = rw b at h2 in cc)
            ]
      ]
]

resolve_chain-Fits :
    (address network : Text) (chain : Chain)
    → resolve_chain address network ≡ some chain
    → Fits (strip (lower network)) chain (detect_network (addr_for_detect address))
unfolding resolve_chain
resolve_chain-Fits address network chain h = chain_for-Fits _ (strip (lower network)) chain h

module _ (client : OkxClient) (sent : client.World → List Request)
    (records : OkxRecords client sent) (now : ℕ) (amount : Decimal) (address : Text) where
  -- Nothing was sent, or exactly one request for the amount, to the address, on this chain.
  abbrev pub SentOn : List Request → Chain → Withdrawing × client.World → Type 0
  SentOn before chain r =
      (fee : Decimal) × SentOnce before (FromOkx.request_for client now amount address chain fee)
        r.0 (sent r.1)

  on_reply-SentOnce :
      (before : List Request) (request : Request) (reply : Reply) (w : client.World)
      → Recorded before request reply (sent w)
      → SentOnce before request
          (FromOkx.on_reply client now amount address (reply, w)).0
          (sent (FromOkx.on_reply client now amount address (reply, w)).1)
  on_reply-SentOnce before request (accepted id fee) w h = h
  on_reply-SentOnce before request (permission_denied travel) w h = h
  on_reply-SentOnce before request other_exception w h = h

  submit-SentOn :
      (before : List Request) (chain : Chain) (fee : Decimal) (r : Bool × client.World)
      → sent r.1 ≡ before
      → SentOn before chain (FromOkx.submit client now amount address chain fee r)
  submit-SentOn before chain fee (false, w) same = (fee, inl same)
  submit-SentOn before chain fee (true, w) same =
      let request = FromOkx.request_for client now amount address chain fee in
      let r = client.withdraw request w in
      (
        fee,
        on_reply-SentOnce before request r.0 r.1
            (subst (λ l. Recorded l request r.0 (sent r.1)) same (records.withdraws request w)),
      )

  cover_keeps :
      (needed : Decimal) (r : Option Decimal × client.World)
      → sent (FromOkx.cover_shortfall client now needed r).1 ≡ sent r.1
  cover_keeps needed (none, w) = refl
  cover_keeps needed (some free, w) = elim (Bool-cases (leb_ℤ needed free)) [
    | inl e ↦ rw e refl
    | inr e ↦ rw e (records.transfer_keeps (sub needed free) w)
  ]

  ensure_keeps :
      (needed : Decimal) (w : client.World)
      → sent (FromOkx.ensure_funding_balance client now needed w).1 ≡ sent w
  unfolding FromOkx.ensure_funding_balance
  ensure_keeps needed w = cover_keeps needed (client.funding_free w) ∙ records.balance_keeps w

  fee_keeps :
      (chain : Chain) (w : client.World) → sent (FromOkx.fee_for client now chain w).1 ≡ sent w
  fee_keeps btc_lightning w = refl
  fee_keeps btc_bitcoin w = records.currencies_keep w

  -- The withdrawal is denied and nothing is sent, or a request on a chain that fits the address.
  abbrev pub SentFitting : Text → client.World → Withdrawing × client.World → Type 0
  SentFitting network w r =
      ((r.0 ≡ denied) × (sent r.1 ≡ sent w))
      ⊎ (chain : Chain) × Fits (strip (lower network)) chain
          (detect_network (addr_for_detect address))
        × SentOn (sent w) chain r

  on_chain-SentFitting :
      (network : Text) (w : client.World) (o : Option Chain)
      → resolve_chain address network ≡ o
      → SentFitting network w (FromOkx.on_chain client now false amount address o w)
  unfolding FromOkx.withdraw_with
  on_chain-SentFitting network w none e = inl (refl, refl)
  on_chain-SentFitting network w (some chain) e =
      let priced = FromOkx.fee_for client now chain w in
      let needed = add amount priced.0 in
      inr (
        chain,
        resolve_chain-Fits address network chain e,
        submit-SentOn (sent w) chain priced.0
            (FromOkx.ensure_funding_balance client now needed priced.1)
            (ensure_keeps needed priced.1 ∙ fee_keeps chain w),
      )

  -- On an exchange that keeps these promises, a live withdrawal from OKX is denied and sends
  -- nothing, or it sends to the address, and for the amount, at most one request, and exactly one
  -- if it reports a submitted withdrawal. The chain is Lightning only for an invoice or a Lightning
  -- address, with no network or Lightning named; it is Bitcoin only for an address on the chain,
  -- or, where Bitcoin is named, for one of unknown kind. A dry run sends nothing.
  pub okx_withdraw-SentFitting :
      (network : Text) (w : client.World)
      → SentFitting network w (FromOkx.withdraw_btc client now false amount address network w)
        × (sent (FromOkx.withdraw_btc client now true amount address network w).1 ≡ sent w)
  unfolding FromOkx.withdraw_btc
  okx_withdraw-SentFitting network w = (
    on_chain-SentFitting network w (resolve_chain address network) refl,
    elim (Option-cases (resolve_chain address network)) [
      | inl e ↦ rw e refl
      | inr (chain, e) ↦ rw e refl
    ],
  )
