-- ===== src/Withdrawals/FromBitoasis.antt =====
-- src/bitcoiners_dca/exchanges/bitoasis.py: withdrawals. The posting of one is a parameter. The
-- fields of an answer are read already, where `none` stands for one that is missing.
use bitcoiners_dca.Prelude.{ℕ, Bool, ◌||◌, Option, none, some, if◌then◌else◌, ◌==◌}
use bitcoiners_dca.Prelude.Text.{Text, codes, lower, same_text, or_text}
use bitcoiners_dca.Decimal.{Decimal, literal}
use bitcoiners_dca.Bitoasis.{Refusal, refusal_for}
use bitcoiners_dca.Withdrawals.{
  Withdrawal, WithdrawalStatus, pending, processing, complete, failed, Withdrawing, submitted,
  denied, errored, Request,
}
use bitcoiners_dca.Withdrawals.FromBinance.{is_refused}

-- The object `withdrawal` of an answer. A missing status is an empty text.
pub record BitWithdrawal : Type 0 where
  pub id : ℕ
  pub value : Decimal
  pub withdrawal_address : Text
  pub amount_fee : Option Decimal
  pub status : Text
  pub date_created : ℕ

-- What the request comes to: no answer, or one with its status code and its body, if that is a JSON
-- object. The Boolean says whether the text of the exception, if there is one, has a word of those
-- that are taken for a denial.
pub data Posting : Type 0 where
  unreachable : Bool → Posting
  answered : ℕ → Bool → Option BitWithdrawal → Posting

pub record BitWallet : Type 1 where
  pub World : Type 0
  pub post_withdrawal : Request → World → Posting × World

abbrev default_btc_withdraw_fee : Decimal
default_btc_withdraw_fee = literal 5 4

abbrev fee_of : Option Decimal → Decimal
fee_of none = default_btc_withdraw_fee
fee_of (some fee) = fee

-- `_map_withdrawal_status`, which compares upper-case texts
unfoldable pub map_withdrawal_status : Text → WithdrawalStatus
unfolding lower same_text
map_withdrawal_status value =
    let s = lower (or_text value (codes "pending")) in
    if same_text s (codes "processing")
    then processing
    else if same_text s (codes "done")
        || (same_text s (codes "complete") || same_text s (codes "completed"))
    then complete
    else if same_text s (codes "failed")
        || (same_text s (codes "rejected") || same_text s (codes "canceled"))
    then failed
    else pending

abbrev read_withdrawal : Request → BitWithdrawal → Withdrawal
read_withdrawal request raw = record {
  exchange = "bitoasis";
  withdrawal_id = raw.id;
  amount = request.amount;
  address = request.address;
  fee = fee_of raw.amount_fee;
  status = map_withdrawal_status raw.status;
  created_at = raw.date_created;
}

-- The `except` clause.
abbrev pub on_error : Bool → Withdrawing
on_error signal = if signal then denied else errored

abbrev pub judge_withdrawal : Request → Option Refusal → Bool → Option BitWithdrawal → Withdrawing
judge_withdrawal request (some refusal) signal parsed = on_error signal
judge_withdrawal request none signal none = on_error signal
judge_withdrawal request none signal (some raw) = submitted (read_withdrawal request raw)

abbrev pub request_for : Decimal → Text → Text → Request
request_for amount address network = record {
  amount = amount;
  address = address;
  network = network;
  fee = none;
}

abbrev dry_withdrawal : ℕ → Request → Withdrawal
dry_withdrawal now request = record {
  exchange = "bitoasis";
  withdrawal_id = now;
  amount = request.amount;
  address = request.address;
  fee = default_btc_withdraw_fee;
  status = pending;
  created_at = now;
}

module _ (wallet : BitWallet) (now : ℕ) where
  abbrev pub on_posting : Request → Posting × wallet.World → Withdrawing × wallet.World
  on_posting request (unreachable signal, w) = (on_error signal, w)
  on_posting request (answered code signal parsed, w) =
      (judge_withdrawal request (refusal_for code) signal parsed, w)

  -- `withdraw_btc`
  unfoldable pub withdraw_btc :
      Bool → Decimal → Text → Text → wallet.World → Withdrawing × wallet.World
  unfolding is_refused refusal_for map_withdrawal_status
  withdraw_btc dry_run amount address network w =
      let request = request_for amount address network in
      if is_refused address network
      then (denied, w)
      else if dry_run
      then (submitted (dry_withdrawal now request), w)
      else on_posting request (wallet.post_withdrawal request w)

-- `get_withdrawal`, on the object that the exchange answers
unfoldable pub get_withdrawal : ℕ → BitWithdrawal → Withdrawal
unfolding map_withdrawal_status
get_withdrawal id raw = record {
  exchange = "bitoasis";
  withdrawal_id = if raw.id == 0 then id else raw.id;
  amount = raw.value;
  address = raw.withdrawal_address;
  fee = fee_of raw.amount_fee;
  status = map_withdrawal_status raw.status;
  created_at = raw.date_created;
}
