-- ===== src/Tests/Payouts.antt =====
-- Withdrawals and their destinations on concrete exchanges.
use bitcoiners_dca.Prelude.{◌≡◌, inr, refl, true, false, Option, none, some, List, [], ◌∷◌}
use bitcoiners_dca.Prelude.Int.{ℤ, pos, ◌<ℤ◌}
use bitcoiners_dca.Prelude.Text.{Text, codes, lower}
use bitcoiners_dca.Decimal.{whole, literal}
use bitcoiners_dca.Lightning.{
  PayMetadata, CallbackAnswer, resolve_to_invoice, has_bolt11_prefix, is_lightning,
}
use bitcoiners_dca.Lightning.Invoices.{ComesFrom, resolve_to_invoice-ComesFrom}
use bitcoiners_dca.Withdrawals.{Request, accepted, permission_denied, denied}
use bitcoiners_dca.Withdrawals.FromOkx
use bitcoiners_dca.Withdrawals.FromOkx.{OkxClient}
use bitcoiners_dca.Withdrawals.FromBinance
use bitcoiners_dca.Withdrawals.FromBitoasis
use bitcoiners_dca.Withdrawals.FromBitoasis.{BitWallet, unreachable}
use bitcoiners_dca.Withdrawals.Posted.{PostedOnce, bitoasis_withdraw-PostedOnce}
use bitcoiners_dca.Withdrawals.FromBinance.{is_refused, BinanceClient, LocalReply, answered}
use bitcoiners_dca.Withdrawals.Sent.{OkxRecords, SentFitting, SentOnce, okx_withdraw-SentFitting}
use bitcoiners_dca.Persistence.Withdrawn.{Place, Use, record_destinations}
use bitcoiners_dca.Persistence.Withdrawn.Destinations.{
  rows_at, uses_at, described, record_destinations-described,
}
use bitcoiners_dca.Withdrawals.Relayed.{BinanceRecords, binance_withdraw-SentOnce}

abbrev wallet : Text → Text → Option PayMetadata
wallet user host = some (record {
  is_pay_request = true;
  min_sendable = pos 1000;
  max_sendable = pos 0;
  callback = some (codes "https://host/cb");
})

abbrev call_back : Text → ℤ → Option CallbackAnswer
call_back url msat = some (record { is_error = false; invoice = some (codes "lnbc21") })

abbrev satoshi : Text
satoshi = codes " satoshi@host.com"

resolved : resolve_to_invoice wallet call_back satoshi (pos 21) ≡ some (codes "lnbc21")
unfolding resolve_to_invoice
resolved = refl

resolve_to_invoice-ComesFrom_example :
    (pos 0 <ℤ pos 21)
    × ComesFrom wallet call_back satoshi 21 (codes "lnbc21")
    × (has_bolt11_prefix (lower (codes "lnbc21")) ≡ true)
resolve_to_invoice-ComesFrom_example =
    resolve_to_invoice-ComesFrom wallet call_back (codes "lnbc21") satoshi (pos 21) resolved

-- The world is the list of the withdrawals.
abbrev okx_client : OkxClient
okx_client = record {
  World = List Request;
  fetch_currencies = λ w. (none, w);
  funding_free = λ w. (some (whole 0), w);
  transfer = λ a w. (true, w);
  withdraw = λ r w. (accepted 5 none, r ∷ w);
}

okx_client-OkxRecords : OkxRecords okx_client (λ w. w)
okx_client-OkxRecords = record {
  withdraws = λ r w. refl;
  currencies_keep = λ w. refl;
  balance_keeps = λ w. refl;
  transfer_keeps = λ a w. refl;
}

abbrev own_wallet : Text
own_wallet = codes "bc1qar0srrr7xfkvy5l643"

okx_withdraw-SentFitting_example :
    SentFitting okx_client
      (λ w. w)
      okx_client-OkxRecords
      7
      (literal 5 3)
      own_wallet
      (codes "bitcoin")
      []
      (FromOkx.withdraw_btc okx_client 7 false (literal 5 3) own_wallet (codes "bitcoin") [])
    × ((FromOkx.withdraw_btc okx_client 7 true (literal 5 3) own_wallet (codes "bitcoin") []).1
        ≡ [])
okx_withdraw-SentFitting_example =
    okx_withdraw-SentFitting okx_client (λ w. w) okx_client-OkxRecords 7 (literal 5 3) own_wallet
      (codes "bitcoin") []

-- The probe fails, the standard endpoint refers to the travel rule, and the local entity accepts.
abbrev binance_client : BinanceClient
binance_client = record {
  World = List Request;
  requirements = λ r w. (none, w);
  withdraw = λ r w. (permission_denied true, w);
  local_withdraw = λ q r w. (answered false 9, r ∷ w);
}

binance_client-BinanceRecords : BinanceRecords binance_client (λ w. w)
binance_client-BinanceRecords = record {
  withdraws = λ r w. refl;
  local_withdraws = λ q r w. refl;
  probe_keeps = λ r w. refl;
}

binance_withdraw-SentOnce_example :
    SentOnce []
      (FromBinance.request_for (literal 5 3) own_wallet (codes "bitcoin"))
      (FromBinance.withdraw_btc binance_client 7 false
        (literal 5 3)
        own_wallet
        (codes "bitcoin")
        none
        []).0
      (FromBinance.withdraw_btc binance_client 7 false
        (literal 5 3)
        own_wallet
        (codes "bitcoin")
        none
        []).1
    × (is_lightning own_wallet ≡ true
        → ((FromBinance.withdraw_btc binance_client 7 false
              (literal 5 3)
              own_wallet
              (codes "bitcoin")
              none
              []).0
            ≡ denied)
          × ((FromBinance.withdraw_btc binance_client 7 false
                (literal 5 3)
                own_wallet
                (codes "bitcoin")
                none
                []).1
              ≡ []))
binance_withdraw-SentOnce_example =
    binance_withdraw-SentOnce binance_client (λ w. w) binance_client-BinanceRecords 7 (literal 5 3)
      own_wallet (codes "bitcoin") none []

abbrev cold_wallet : Place
cold_wallet = record { exchange = "binance"; address = "bc1cold"; network = "bitcoin" }

abbrev hot_wallet : Place
hot_wallet = record { exchange = "binance"; address = "bc1hot"; network = "bitcoin" }

abbrev destination_uses : List Use
destination_uses =
    record { place = cold_wallet; label = some "Cold"; source = "manual"; now = 5 }
    ∷ record { place = hot_wallet; label = none; source = "manual"; now = 6 }
    ∷ record { place = cold_wallet; label = none; source = "binance_whitelist"; now = 7 }
    ∷ record { place = cold_wallet; label = none; source = "manual"; now = 9 }
    ∷ []

cold_row :
    rows_at cold_wallet (record_destinations destination_uses [])
    ≡ record {
      place = cold_wallet;
      label = some "Cold";
      source = "binance_whitelist";
      first_used_at = 5;
      last_used_at = 9;
    }
      ∷ []
unfolding record_destinations
cold_row = refl

record_destinations-described_example :
    rows_at cold_wallet (record_destinations destination_uses [])
    ≡ described (uses_at cold_wallet destination_uses)
record_destinations-described_example = record_destinations-described cold_wallet destination_uses

-- The first answer of BitOasis is lost, although the withdrawal was made.
abbrev lossy_wallet : BitWallet
lossy_wallet = record { World = List Request; post_withdrawal = λ r w. (unreachable true, r ∷ w) }

bitoasis_withdraw-PostedOnce_example :
    PostedOnce []
      (FromBitoasis.request_for (literal 5 3) own_wallet (codes "bitcoin"))
      (FromBitoasis.withdraw_btc lossy_wallet 7 false
        (literal 5 3)
        own_wallet
        (codes "bitcoin")
        []).0
      (FromBitoasis.withdraw_btc lossy_wallet 7 false
        (literal 5 3)
        own_wallet
        (codes "bitcoin")
        []).1
unfolding is_refused
bitoasis_withdraw-PostedOnce_example =
    bitoasis_withdraw-PostedOnce lossy_wallet (λ w. w) (λ r w. inr refl) 7 (literal 5 3) own_wallet
      (codes "bitcoin") [] refl
