-- ===== src/Withdrawals/BinanceStatus.antt =====
-- src/bitcoiners_dca/exchanges/binance.py: the status of a withdrawal, which is looked up in two
-- histories.
use bitcoiners_dca.Prelude.{ℕ, ◌||◌, Option, none, some, List, [], ◌∷◌, if◌then◌else◌, ◌==◌}
use bitcoiners_dca.Prelude.Text.{Text, codes, lower, same_text}
use bitcoiners_dca.Decimal.{Decimal}
use bitcoiners_dca.Models.{or_else}
use bitcoiners_dca.Withdrawals.FromBinance.{standard_fee}
use bitcoiners_dca.Withdrawals.{Withdrawal, WithdrawalStatus, pending, processing, complete, failed}

-- ccxt's texts, and Binance's numbers, for the status of a withdrawal.
pub data RawStatus : Type 0 where
  text : Text → RawStatus
  number : ℕ → RawStatus
  no_status : RawStatus

abbrev ccxt_withdrawal_status : Text → WithdrawalStatus
ccxt_withdrawal_status s =
    if same_text s (codes "pending")
    then processing
    else if same_text s (codes "ok")
    then complete
    else if same_text s (codes "canceled")
    then failed
    else if same_text s (codes "failed")
    then failed
    else pending

abbrev raw_withdrawal_status : ℕ → WithdrawalStatus
raw_withdrawal_status n =
    if n == 1
    then failed
    else if n == 3
    then failed
    else if n == 4
    then processing
    else if n == 5
    then failed
    else if n == 6
    then complete
    else pending

unfoldable pub status_of : RawStatus → WithdrawalStatus
unfolding lower same_text
status_of (text s) = ccxt_withdrawal_status (lower s)
status_of (number n) = raw_withdrawal_status n
status_of no_status = pending

-- An entry of either history. Those of the local entity have two ids.
pub record HistoryEntry : Type 0 where
  pub id : ℕ
  pub tr_id : ℕ
  pub amount : Decimal
  pub address : Text
  pub fee : Option Decimal
  pub status : RawStatus
  pub timestamp : ℕ

abbrev from_capital : ℕ → HistoryEntry → Withdrawal
from_capital id e = record {
  exchange = "binance";
  withdrawal_id = id;
  amount = e.amount;
  address = e.address;
  fee = standard_fee;
  status = status_of e.status;
  created_at = e.timestamp;
}

-- The status of an entry of the local entity is read by `int`: a text of digits stands here as its
-- number, and any other counts as none.
abbrev number_only : RawStatus → RawStatus
number_only (text s) = no_status
number_only (number n) = number n
number_only no_status = no_status

abbrev from_local : ℕ → ℕ → HistoryEntry → Withdrawal
from_local now id e = record {
  exchange = "binance";
  withdrawal_id = id;
  amount = e.amount;
  address = e.address;
  fee = or_else e.fee standard_fee;
  status = status_of (number_only e.status);
  created_at = now;
}

unfoldable pub find_local : ℕ → ℕ → List HistoryEntry → Option Withdrawal
unfolding status_of
find_local now id [] = none
find_local now id (e ∷ es) =
    let rest = find_local now id es in
    if id == e.tr_id || id == e.id then some (from_local now id e) else rest

unfoldable pub find_capital : ℕ → List HistoryEntry → Option Withdrawal → Option Withdrawal
unfolding status_of
find_capital id [] otherwise = otherwise
find_capital id (e ∷ es) otherwise =
    let rest = find_capital id es otherwise in if e.id == id then some (from_capital id e) else rest

-- `get_withdrawal`, on the two histories; one of the local entity that cannot be read is empty.
-- `none` is the ExchangeError.
unfoldable pub get_withdrawal : ℕ → ℕ → List HistoryEntry → List HistoryEntry → Option Withdrawal
unfolding find_capital find_local
get_withdrawal now id capital local = find_capital id capital (find_local now id local)
