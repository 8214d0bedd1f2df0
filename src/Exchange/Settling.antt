-- ===== src/Exchange/Settling.antt =====
-- That the settling poll answers with an order, and places none.
use bitcoiners_dca.Prelude.{ℕ, zero, suc, ◌≡◌, refl, ◌∙◌, inl, inr, ◌||◌, ◌==◌, Bool-cases}
use bitcoiners_dca.Models.{Order}
use bitcoiners_dca.Strategy.{Result, ok, raise}
use bitcoiners_dca.Exchange.{polled_settled, settled, poll_from, poll_until_settled}

-- `orders` counts what polling leaves alone.
module _ {W : Type 0} (orders : W → ℕ) (get_order : W → Result Order × W)
    (kept : (w : W) → orders (get_order w).1 ≡ orders w) where
  -- The answer is an order, and there are as many as at w.
  abbrev pub Settles : W → Result Order × W → Type 0
  Settles w r = ((o : Order) × (r.0 ≡ ok o)) × (orders r.1 ≡ orders w)

  polled-Settles :
      (w : W) (r : Result Order × W) (snap : Order) (next : Order → W → Result Order × W)
      → orders r.1 ≡ orders w
      → ((o : Order) → Settles w (next o r.1))
      → Settles w (polled_settled get_order r snap next)
  polled-Settles w (raise e, w1) snap next same later = later snap
  polled-Settles w (ok o, w1) snap next same later = elim (Bool-cases (settled o.status)) [
    | inl e ↦ rw e ((o, refl), same)
    | inr e ↦ rw e (later o)
  ]

  poll_from-Settles : (n : ℕ) (snap : Order) (w : W) → Settles w (poll_from get_order n snap w)
  unfolding poll_from
  poll_from-Settles zero snap w = ((snap, refl), refl)
  poll_from-Settles (suc n) snap w =
      polled-Settles w (get_order w) snap _ (kept w)
        (λ o. let (answer, same) = poll_from-Settles n o (get_order w).1 in (answer, same ∙ kept w))

  pub poll_until_settled-Settles :
      (n : ℕ) (o : Order) (w : W) → Settles w (poll_until_settled get_order n o w)
  unfolding poll_until_settled
  poll_until_settled-Settles n o w = elim (Bool-cases ((o.order_id == 0) || settled o.status)) [
    | inl e ↦ rw e ((o, refl), refl)
    | inr e ↦ rw e (poll_from-Settles n o w)
  ]
