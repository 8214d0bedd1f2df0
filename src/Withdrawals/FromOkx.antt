-- ===== src/Withdrawals/FromOkx.antt =====
-- src/bitcoiners_dca/exchanges/okx.py: withdrawals. The client's calls are parameters, `none` or
-- false being an exception.
use bitcoiners_dca.Prelude.{
  ℕ, Bool, true, false, ◌||◌, Option, none, some, List, [], ◌∷◌, if◌then◌else◌,
}
use bitcoiners_dca.Prelude.Int.{leb_ℤ}
use bitcoiners_dca.Prelude.Text.{
  Text, codes, is_empty, strip, lower, same_text, has_char, before_char,
}
use bitcoiners_dca.Decimal.{Decimal, whole, literal, add, sub}
use bitcoiners_dca.Lightning.{
  WithdrawalNetwork, bitcoin, lightning, lnurl, lightning_address, unknown, detect_network,
}
use bitcoiners_dca.Withdrawals.{
  Withdrawal, Withdrawing, submitted, denied, errored, Request, Reply, accepted, permission_denied,
  other_exception, pending,
}

pub data Chain : Type 0 where
  btc_bitcoin btc_lightning : Chain

abbrev pub chain_name : Chain → Text
chain_name btc_bitcoin = codes "BTC-Bitcoin"
chain_name btc_lightning = codes "BTC-Lightning"

-- An address without the label behind its ":", where it has an "@".
unfoldable pub addr_for_detect : Text → Text
unfolding has_char before_char
addr_for_detect address = if has_char b'@' address then before_char b':' address else address

abbrev pub inferred_chain : WithdrawalNetwork → Option Chain
inferred_chain lightning = some btc_lightning
inferred_chain lightning_address = some btc_lightning
inferred_chain bitcoin = some btc_bitcoin
inferred_chain lnurl = none
inferred_chain unknown = none

abbrev pub lightning_chain : WithdrawalNetwork → Option Chain
lightning_chain lightning = some btc_lightning
lightning_chain lightning_address = some btc_lightning
lightning_chain bitcoin = none
lightning_chain lnurl = none
lightning_chain unknown = none

abbrev pub bitcoin_chain : WithdrawalNetwork → Option Chain
bitcoin_chain bitcoin = some btc_bitcoin
bitcoin_chain unknown = some btc_bitcoin
bitcoin_chain lightning = none
bitcoin_chain lightning_address = none
bitcoin_chain lnurl = none

abbrev pub is_lightning_name : Text → Bool
is_lightning_name net =
    same_text net (codes "lightning")
    || same_text net (codes "ln")
    || same_text net (codes "bolt11")

abbrev pub is_bitcoin_name : Text → Bool
is_bitcoin_name net =
    same_text net (codes "bitcoin")
    || same_text net (codes "btc")
    || same_text net (codes "onchain")

abbrev pub chain_for : WithdrawalNetwork → Text → Option Chain
chain_for detected net =
    if is_empty net
    then inferred_chain detected
    else if is_lightning_name net
    then lightning_chain detected
    else if is_bitcoin_name net
    then bitcoin_chain detected
    else none

-- `_resolve_chain`; `none` is the WithdrawalDeniedError.
unfoldable pub resolve_chain : Text → Text → Option Chain
unfolding addr_for_detect detect_network strip lower same_text
resolve_chain address network =
    chain_for (detect_network (addr_for_detect address)) (strip (lower network))

-- The fees that `fetch_currencies` knows of BTC: those of the three network keys, and its own.
pub record Currencies : Type 0 where
  pub network_fees : List (Option Decimal)
  pub fee : Option Decimal

abbrev default_fee : Decimal
default_fee = literal 1 4

abbrev or_default : Option Decimal → Decimal
or_default none = default_fee
or_default (some fee) = fee

abbrev first_fee : List (Option Decimal) → Option Decimal → Decimal
first_fee [] fee = or_default fee
first_fee (none ∷ fees) fee = first_fee fees fee
first_fee (some f ∷ fees) fee = f

-- `_fetch_btc_onchain_fee_str`, on the answer of the client
abbrev pub onchain_fee : Option Currencies → Decimal
onchain_fee none = default_fee
onchain_fee (some c) = first_fee c.network_fees c.fee

pub record OkxClient : Type 1 where
  pub World : Type 0
  pub fetch_currencies : World → Option Currencies × World
  pub funding_free : World → Option Decimal × World
  pub transfer : Decimal → World → Bool × World
  pub withdraw : Request → World → Reply × World

module _ (client : OkxClient) (now : ℕ) where
  -- What follows the reading of the balance of the Funding account.
  abbrev pub cover_shortfall : Decimal → Option Decimal × client.World → Bool × client.World
  cover_shortfall needed (none, w) = (false, w)
  cover_shortfall needed (some free, w) =
      if leb_ℤ needed free then (true, w) else client.transfer (sub needed free) w

  -- `_ensure_funding_balance`; false is its exception.
  unfoldable pub ensure_funding_balance : Decimal → client.World → Bool × client.World
  ensure_funding_balance needed w = cover_shortfall needed (client.funding_free w)

  abbrev fee_or : Option Decimal → Decimal
  fee_or none = literal 2 4
  fee_or (some fee) = fee

  abbrev pub on_reply : Decimal → Text → Reply × client.World → Withdrawing × client.World
  on_reply amount address (accepted id fee, w) = (
    submitted (record {
      exchange = "okx";
      withdrawal_id = id;
      amount = amount;
      address = address;
      fee = fee_or fee;
      status = pending;
      created_at = now;
    }),
    w,
  )
  on_reply amount address (permission_denied travel, w) = (denied, w)
  on_reply amount address (other_exception, w) = (errored, w)

  abbrev pub request_for : Decimal → Text → Chain → Decimal → Request
  request_for amount address chain fee = record {
    amount = amount;
    address = address;
    network = chain_name chain;
    fee = some fee;
  }

  abbrev pub submit :
      Decimal → Text → Chain → Decimal → Bool × client.World → Withdrawing × client.World
  submit amount address chain fee (false, w) = (errored, w)
  submit amount address chain fee (true, w) =
      on_reply amount address (client.withdraw (request_for amount address chain fee) w)

  -- The fee that is named to the exchange.
  abbrev pub fee_for : Chain → client.World → Decimal × client.World
  fee_for btc_lightning w = (whole 0, w)
  fee_for btc_bitcoin w = let (c, w1) = client.fetch_currencies w in (onchain_fee c, w1)

  -- The withdrawal on a chain, when the fee is known.
  unfoldable pub withdraw_with :
      Decimal → Text → Chain → Decimal × client.World → Withdrawing × client.World
  unfolding ensure_funding_balance
  withdraw_with amount address chain (fee, w) =
      submit amount address chain fee (ensure_funding_balance (add amount fee) w)

  abbrev dry_fee : Chain → Decimal
  dry_fee btc_lightning = whole 0
  dry_fee btc_bitcoin = literal 2 4

  abbrev dry_withdrawal : Decimal → Text → Chain → Withdrawal
  dry_withdrawal amount address chain = record {
    exchange = "okx";
    withdrawal_id = now;
    amount = amount;
    address = address;
    fee = dry_fee chain;
    status = pending;
    created_at = now;
  }

  abbrev pub on_chain :
      Bool → Decimal → Text → Option Chain → client.World → Withdrawing × client.World
  on_chain dry_run amount address none w = (denied, w)
  on_chain true amount address (some chain) w = (submitted (dry_withdrawal amount address chain), w)
  on_chain false amount address (some chain) w =
      withdraw_with amount address chain (fee_for chain w)

  -- `withdraw_btc`
  unfoldable pub withdraw_btc :
      Bool → Decimal → Text → Text → client.World → Withdrawing × client.World
  unfolding resolve_chain withdraw_with
  withdraw_btc dry_run amount address network w =
      on_chain dry_run amount address (resolve_chain address network) w
