-- ===== src/Withdrawals/FromBinance.antt =====
-- src/bitcoiners_dca/exchanges/binance.py: withdrawals, with the questionnaire of the travel rule.
-- The client's calls are parameters, `none` being an exception.
use bitcoiners_dca.Prelude.{
  ℕ, Bool, true, false, ◌||◌, Option, none, some, [], ◌∷◌, ◌++◌, if◌then◌else◌, ◌==◌,
}
use bitcoiners_dca.Prelude.Text.{Text, codes, strip, lower, same_text, or_text}
use bitcoiners_dca.Decimal.{Decimal, literal}
use bitcoiners_dca.Lightning.{is_lightning}
use bitcoiners_dca.Withdrawals.{
  Withdrawal, pending, Withdrawing, submitted, denied, errored, Request, Reply, accepted,
  permission_denied, other_exception,
}

-- The recipient, as the caller describes it. A missing text is empty.
pub record RcvrInfo : Type 0 where
  pub address_owner_self : Bool
  pub first_name : Text
  pub last_name : Text
  pub country : Text
  pub country_sub_division : Text

-- What a questionnaire says of another beneficiary.
pub record Beneficiary : Type 0 where
  pub bnf_name : Text
  pub country : Text
  pub city : Text

-- `isAddressOwner` is 1 without a beneficiary and 2 with one; `sendTo` is always a private wallet.
abbrev pub Questionnaire : Type 0
Questionnaire = Option Beneficiary

-- `s[:2]`
abbrev first_two : Text → Text
first_two [] = []
first_two (a ∷ []) = a ∷ []
first_two (a ∷ b ∷ s) = a ∷ b ∷ []

abbrev beneficiary : RcvrInfo → Beneficiary
beneficiary r = record {
  bnf_name =
      or_text (strip (strip r.first_name ++ (b' ' ∷ strip r.last_name))) (codes "Beneficiary");
  country = first_two (lower (or_text r.country (codes "AE")));
  city = strip (or_text r.country_sub_division (codes "Dubai"));
}

-- `_build_uae_questionnaire`
unfoldable pub build_uae_questionnaire : Option RcvrInfo → Questionnaire
unfolding strip lower
build_uae_questionnaire none = none
build_uae_questionnaire (some r) = if r.address_owner_self then none else some (beneficiary r)

-- The answer of the local entity: whether `accepted` is false, and the id of the transfer.
pub data LocalReply : Type 0 where
  answered : Bool → ℕ → LocalReply
  local_denied local_exception : LocalReply

-- `requirements` is the probe, and whether its answer is not empty.
pub record BinanceClient : Type 1 where
  pub World : Type 0
  pub requirements : Request → World → Option Bool × World
  pub withdraw : Request → World → Reply × World
  pub local_withdraw : Questionnaire → Request → World → LocalReply × World

abbrev is_lightning_network : Text → Bool
is_lightning_network network =
    same_text (lower network) (codes "lightning")
    || same_text (lower network) (codes "ln")
    || same_text (lower network) (codes "bolt11")

-- The destinations that are refused at once.
unfoldable pub is_refused : Text → Text → Bool
unfolding is_lightning lower same_text
is_refused address network = is_lightning address || is_lightning_network network

abbrev pub binance_network : Text → Text
binance_network network = if same_text network (codes "bitcoin") then codes "BTC" else network

-- `_requirements_indicate_travel_rule`, where a probe that failed counts as empty.
abbrev pub requirements_indicate_travel_rule : Option Bool → Bool
requirements_indicate_travel_rule none = false
requirements_indicate_travel_rule (some nonempty) = nonempty

abbrev pub request_for : Decimal → Text → Text → Request
request_for amount address network = record {
  amount = amount;
  address = address;
  network = binance_network network;
  fee = none;
}

abbrev pub standard_fee : Decimal
standard_fee = literal 2 4

module _ (client : BinanceClient) (now : ℕ) where
  abbrev withdrawal : Request → ℕ → Withdrawal
  withdrawal request id = record {
    exchange = "binance";
    withdrawal_id = id;
    amount = request.amount;
    address = request.address;
    fee = standard_fee;
    status = pending;
    created_at = now;
  }

  abbrev pub on_local : Request → LocalReply × client.World → Withdrawing × client.World
  on_local request (local_denied, w) = (denied, w)
  on_local request (local_exception, w) = (errored, w)
  on_local request (answered true id, w) = (denied, w)
  on_local request (answered false id, w) =
      (if id == 0 then errored else submitted (withdrawal request id), w)

  -- `_withdraw_via_localentity`
  unfoldable pub withdraw_via_localentity :
      Option RcvrInfo → Request → client.World → Withdrawing × client.World
  unfolding build_uae_questionnaire
  withdraw_via_localentity rcvr_info request w =
      on_local request (client.local_withdraw (build_uae_questionnaire rcvr_info) request w)

  abbrev pub on_standard :
      Option RcvrInfo → Request → Reply × client.World → Withdrawing × client.World
  on_standard rcvr_info request (accepted id fee, w) = (submitted (withdrawal request id), w)
  on_standard rcvr_info request (permission_denied true, w) =
      withdraw_via_localentity rcvr_info request w
  on_standard rcvr_info request (permission_denied false, w) = (denied, w)
  on_standard rcvr_info request (other_exception, w) = (errored, w)

  -- The live withdrawal, after the probe.
  abbrev pub after_probe :
      Option RcvrInfo → Request → Option Bool × client.World → Withdrawing × client.World
  after_probe rcvr_info request (answer, w) =
      if requirements_indicate_travel_rule answer
      then withdraw_via_localentity rcvr_info request w
      else on_standard rcvr_info request (client.withdraw request w)

  -- `withdraw_btc`
  unfoldable pub withdraw_btc :
      Bool → Decimal → Text → Text → Option RcvrInfo → client.World → Withdrawing × client.World
  unfolding is_refused withdraw_via_localentity same_text
  withdraw_btc dry_run amount address network rcvr_info w =
      let request = request_for amount address network in
      if is_refused address network
      then (denied, w)
      else if dry_run
      then (submitted (withdrawal request now), w)
      else after_probe rcvr_info request (client.requirements request w)
