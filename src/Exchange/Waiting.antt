-- ===== src/Exchange/Waiting.antt =====
-- When the wait for a fill ends.
use bitcoiners_dca.Prelude.{
  ℕ, zero, suc, ◌≡◌, refl, ap, ◌∙◌, ◌⊎◌, inl, inr, true, false, Option, none, some, arith,
  Bool-cases,
}
use mathlib.Core.Path.{subst}
use bitcoiners_dca.Models.{Order, OrderStatus, pending, partial, filled, cancelled, rejected}
use bitcoiners_dca.Strategy.{Result, ok, raise}
use bitcoiners_dca.Exchange.{is_terminal, polled, wait_from, wait_for_fill}

abbrev pub IsOver : OrderStatus → Type 0
IsOver s = (s ≡ filled) ⊎ (s ≡ cancelled) ⊎ (s ≡ rejected)

abbrev pub CanFill : OrderStatus → Type 0
CanFill s = (s ≡ pending) ⊎ (s ≡ partial)

is_terminal-IsOver : (s : OrderStatus) → is_terminal s ≡ true → IsOver s
is_terminal-IsOver filled e = inl refl
is_terminal-IsOver cancelled e = inr (inl refl)
is_terminal-IsOver rejected e = inr (inr refl)
is_terminal-IsOver pending e = absurd (cc)
is_terminal-IsOver partial e = absurd (cc)

is_terminal-CanFill : (s : OrderStatus) → is_terminal s ≡ false → CanFill s
is_terminal-CanFill filled e = absurd (cc)
is_terminal-CanFill cancelled e = absurd (cc)
is_terminal-CanFill rejected e = absurd (cc)
is_terminal-CanFill pending e = inl refl
is_terminal-CanFill partial e = inr refl

module _ {W : Type 0} (get_order : W → Result Order × W) where
  -- A poll that gives o is among the first n polls from w on, it is the last one, and o is filled,
  -- cancelled or rejected, as no order before it.
  pub data Saw : ℕ → W → Order → W → Type 0 where
    at_once :
        {n : ℕ} {w w' : W} {o : Order}
        → get_order w ≡ (ok o, w')
        → IsOver o.status
        → Saw (suc n) w o w'
    later :
        {n : ℕ} {w w' w'' : W} {o last : Order}
        → get_order w ≡ (ok o, w')
        → CanFill o.status
        → Saw n w' last w''
        → Saw (suc n) w last w''

  -- From w on, n polls in turn gave orders that can still fill, the last of them o.
  pub data Waits : ℕ → W → Order → W → Type 0 where
    last_poll :
        {w w' : W} {o : Order}
        → get_order w ≡ (ok o, w')
        → CanFill o.status
        → Waits (suc zero) w o w'
    then_poll :
        {n : ℕ} {w w' w'' : W} {o last : Order}
        → get_order w ≡ (ok o, w')
        → CanFill o.status
        → Waits n w' last w''
        → Waits (suc n) w last w''

  abbrev Ends : ℕ → W → Order → W → Type 0
  Ends n w o w' = Saw n w o w' ⊎ Waits n w o w'

  abbrev order_in : Result Order → Order → Order
  order_in (ok o) d = o
  order_in (raise e) d = d

  -- The first poll and what follows it.
  polled-Ends :
      (n : ℕ) (w : W) (o : Order) (w' : W) (r : Result Order × W)
      (next : Option Order → W → Result Order × W)
      → get_order w ≡ r
      → polled get_order r next ≡ (ok o, w')
      → ((o1 : Order) (w1 : W)
          → get_order w ≡ (ok o1, w1)
          → CanFill o1.status
          → next (some o1) w1 ≡ (ok o, w')
          → Ends (suc n) w o w')
      → Ends (suc n) w o w'
  polled-Ends n w o w' (raise e, w1) next er g h = absurd (ground arith)
  polled-Ends n w o w' (ok o1, w1) next er g h = elim (Bool-cases (is_terminal o1.status)) [
    | inl final ↦ inl (
        let ends : (ok o1, w1) ≡ (ok o, w') = rw final at g in
        let same : o1 ≡ o = ap (λ r. order_in r.0 o1) ends in
        at_once (er ∙ ends)
          (subst (λ x. IsOver x.status) same (is_terminal-IsOver o1.status final)))
    | inr open_still ↦ h o1 w1 er (is_terminal-CanFill o1.status open_still) (rw open_still at g)
  ]

  wait_from-Ends :
      (n : ℕ) (last : Option Order) (w : W) (o : Order) (w' : W)
      → wait_from get_order (suc n) last w ≡ (ok o, w')
      → Ends (suc n) w o w'
  unfolding wait_from
  wait_from-Ends zero last w o w' e =
      polled-Ends zero w o w' (get_order w) _ refl e (λ o1 w1 er open_still g. inr (
        last_poll (er ∙ g)
          (subst (λ x. CanFill x.status) (ap (λ r. order_in r.0 o1) g) open_still)))
  wait_from-Ends (suc n) last w o w' e =
      polled-Ends (suc n) w o w' (get_order w) _ refl e (λ o1 w1 er open_still g.
        elim (wait_from-Ends n (some o1) w1 o w' g) [
          | inl seen ↦ inl (later er open_still seen)
          | inr waits ↦ inr (then_poll er open_still waits)
        ])

  -- A wait that is given at least one poll and returns an order returns what its last poll gave:
  -- either that poll found the order filled, cancelled or rejected, and those before it found it
  -- pending or partly filled, or else all its polls were used, and each of them found it so.
  pub wait_for_fill-Waits :
      (n : ℕ) (w : W) (o : Order) (w' : W)
      → wait_for_fill get_order (suc n) w ≡ (ok o, w')
      → Saw (suc n) w o w' ⊎ Waits (suc n) w o w'
  unfolding wait_for_fill
  wait_for_fill-Waits n w o w' e = wait_from-Ends n none w o w' e
