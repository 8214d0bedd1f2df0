-- ===== src/Tests/Adapter.antt =====
-- The base class of the adapters on a counting exchange.
use bitcoiners_dca.Prelude.{
  ℕ, zero, suc, ◌+◌, ◌≡◌, ◌⊎◌, refl, String, true, false, none, some, List, [], ◌∷◌, length,
  if◌then◌else◌,
}
use bitcoiners_dca.Decimal.{whole}
use bitcoiners_dca.Models.{Order, pending}
use bitcoiners_dca.Strategy.{Result, ok, raise, exchange_error}
use bitcoiners_dca.Exchange.{OpenOrder, cancel_all_open_orders, wait_for_fill}
use bitcoiners_dca.Exchange.Sweep.{answers, all_cancelled, own_ids, cancel_all_open_orders-own_ids}
use bitcoiners_dca.Exchange.Waiting.{Saw, Waits, wait_for_fill-Waits}
use bitcoiners_dca.Tests.Venue.{btc_aed, order_for}

abbrev open_order : Order
open_order = order_for btc_aed (whole 100) pending none

-- The world counts the calls; every second one fails.
abbrev cancel_every_other : String → ℕ → Result Order × ℕ
cancel_every_other id zero = (ok open_order, 1)
cancel_every_other id (suc n) = (raise exchange_error, n)

abbrev book : List OpenOrder
book =
    record { id = some "a"; tagged = true }
    ∷ record { id = some "manual"; tagged = false }
    ∷ record { id = none; tagged = true }
    ∷ record { id = some "b"; tagged = true }
    ∷ []

sweep_raises : cancel_all_open_orders cancel_every_other (some book) 0 ≡ (raise exchange_error, 0)
unfolding cancel_all_open_orders
sweep_raises = refl

cancel_all_open_orders-own_ids_example : cancel_all_open_orders cancel_every_other (some book) 0 ≡ (
  if all_cancelled cancel_every_other (answers cancel_every_other (own_ids book) 0).0
      then ok (length (own_ids book))
      else raise exchange_error,
  (answers cancel_every_other (own_ids book) 0).1,
)
cancel_all_open_orders-own_ids_example = cancel_all_open_orders-own_ids cancel_every_other book 0

abbrev poll : ℕ → Result Order × ℕ
poll n = (ok open_order, n + 1)

waited : wait_for_fill poll 2 0 ≡ (ok open_order, 2)
unfolding wait_for_fill
waited = refl

wait_for_fill-Waits_example : Saw poll 2 0 open_order 2 ⊎ Waits poll 2 0 open_order 2
wait_for_fill-Waits_example = wait_for_fill-Waits poll 1 0 open_order 2 waited
