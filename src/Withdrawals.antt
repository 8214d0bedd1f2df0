-- ===== src/Withdrawals.antt =====
-- Withdrawals: the data of src/bitcoiners_dca/core/models.py, and how the adapters of OKX
-- (Withdrawals/FromOkx), Binance (Withdrawals/FromBinance) and BitOasis (Withdrawals/FromBitoasis)
-- submit them; Withdrawals/BinanceStatus looks one up. A number 0 is an empty `withdrawal_id`.
-- Proofs in Withdrawals/Sent, Withdrawals/Relayed and Withdrawals/Posted.
pub mod FromOkx
pub mod FromBinance
pub mod BinanceStatus
pub mod FromBitoasis
pub mod Sent
pub mod Relayed
pub mod Posted
use bitcoiners_dca.Prelude.{ℕ, Option, Bool, String}
use bitcoiners_dca.Prelude.Text.{Text}
use bitcoiners_dca.Decimal.{Decimal}

pub data WithdrawalStatus : Type 0 where
  pending processing complete failed : WithdrawalStatus

pub record Withdrawal : Type 0 where
  pub exchange : String
  pub withdrawal_id : ℕ
  pub amount : Decimal
  pub address : Text
  pub fee : Decimal
  pub status : WithdrawalStatus
  pub created_at : ℕ

-- `denied` is a WithdrawalDeniedError, and `errored` any other exception.
pub data Withdrawing : Type 0 where
  submitted : Withdrawal → Withdrawing
  denied errored : Withdrawing

-- What a call asks of the exchange: the fee is named to OKX alone.
pub record Request : Type 0 where
  pub amount : Decimal
  pub address : Text
  pub network : Text
  pub fee : Option Decimal

-- ccxt's answer to `withdraw`: an id with the fee, if it is named (one that is null is 0);
-- PermissionDenied, and whether its text is about the travel rule; or any other exception.
pub data Reply : Type 0 where
  accepted : ℕ → Option Decimal → Reply
  permission_denied : Bool → Reply
  other_exception : Reply
