-- ===== src/Routing/Floors.antt =====
-- The floor on a route's input covers the floor of every hop.
use bitcoiners_dca.Prelude.{
  ◌≡◌, Option, none, some, List, [], ◌∷◌, ◌++◌, arith, inl, inr, Bool-cases, Option-cases,
  if◌then◌else◌,
}
use mathlib.Core.Path.{subst}
use mathlib.Core.Option.{some-injective}
use bitcoiners_dca.Prelude.Int.{pos, negsuc, ◌≤ℤ◌}
use bitcoiners_dca.Decimal.{Decimal, whole, literal, mul}
use bitcoiners_dca.Decimal.Rounding.{mul_surcharge}
use bitcoiners_dca.Models.{OrderMinimum, positive}
use bitcoiners_dca.Routing.{
  TradeHop, TradeRoute, hops, hop_floor, carry_back, raise_floor, floors, is_buy, min_input_amount,
}

-- The floor of every hop that has a minimum, carried back to the route's input, is at most m.
abbrev pub Covers : Decimal → List TradeHop → List TradeHop → List (Option OrderMinimum) → Type 0
Covers m earlier [] minimums = Unit
Covers m earlier (h ∷ hs) [] = Unit
Covers m earlier (h ∷ hs) (none ∷ ms) = Covers m (earlier ++ h ∷ []) hs ms
Covers m earlier (h ∷ hs) (some om ∷ ms) =
    (carry_back earlier (hop_floor h om) ≤ℤ m) × Covers m (earlier ++ h ∷ []) hs ms

Covers-mono :
    (m n : Decimal) (earlier hs : List TradeHop) (minimums : List (Option OrderMinimum))
    → m ≤ℤ n
    → Covers m earlier hs minimums
    → Covers n earlier hs minimums
Covers-mono m n earlier [] minimums le h = tt
Covers-mono m n earlier (x ∷ hs) [] le h = tt
Covers-mono m n earlier (x ∷ hs) (none ∷ ms) le h = Covers-mono m n (earlier ++ x ∷ []) hs ms le h
Covers-mono m n earlier (x ∷ hs) (some om ∷ ms) le h =
    (ground arith, Covers-mono m n (earlier ++ x ∷ []) hs ms le h.1)

raise_floor_bounds :
    (earlier : List TradeHop) (h : TradeHop) (om : OrderMinimum) (f : Decimal)
    → (f ≤ℤ raise_floor earlier h om f)
      × (carry_back earlier (hop_floor h om) ≤ℤ raise_floor earlier h om f)
unfolding raise_floor
raise_floor_bounds earlier h om f = ground arith

floors-Covers :
    (earlier hs : List TradeHop) (minimums : List (Option OrderMinimum)) (f g : Decimal)
    → floors earlier hs minimums f ≡ some g
    → (f ≤ℤ g) × Covers g earlier hs minimums
unfolding floors
floors-Covers earlier [] [] f g e = (ground arith, tt)
floors-Covers earlier [] (m ∷ ms) f g e = absurd (ground arith)
floors-Covers earlier (h ∷ hs) [] f g e = absurd (ground arith)
floors-Covers earlier (h ∷ hs) (none ∷ ms) f g e = floors-Covers (earlier ++ h ∷ []) hs ms f g e
floors-Covers earlier (h ∷ hs) (some om ∷ ms) f g e = elim (Bool-cases (is_buy h.side)) [
  | inr sells ↦ absurd (ground arith)
  | inl buys ↦
      let (le, covers) =
        floors-Covers (earlier ++ h ∷ []) hs ms (raise_floor earlier h om f) g
          (rw (buys, floors) at e) in
      let (up, own) = raise_floor_bounds earlier h om f in (ground arith, (ground arith, covers))
]

with_margin : Decimal → Decimal
with_margin g = if positive g then mul g (literal 101 2) else g

with_margin_ge : (g : Decimal) → whole 0 ≤ℤ g → g ≤ℤ with_margin g
unfolding with_margin
with_margin_ge (pos n) h = ground (arith, mul_surcharge n)
with_margin_ge (negsuc n) h = absurd (omega arith)

-- If a route has a floor on its input, then the floor is not negative, and it is at least the floor
-- of every hop with a known minimum, carried back through the prices and fees of the hops before.
pub min_input_amount-Covers :
    (r : TradeRoute) (minimums : List (Option OrderMinimum)) (m : Decimal)
    → min_input_amount r minimums ≡ some m
    → (whole 0 ≤ℤ m) × Covers m [] (hops r) minimums
unfolding min_input_amount with_margin
min_input_amount-Covers r minimums m e =
    elim (Option-cases (floors [] (hops r) minimums (whole 0))) [
      | inl raises ↦ absurd (ground arith)
      | inr (g, eg) ↦
          let (le, covers) = floors-Covers [] (hops r) minimums (whole 0) g eg in
          let up = with_margin_ge g le in
          let same : with_margin g ≡ m = some-injective _ _ (rw (eg, min_input_amount) at e) in
          subst (λ x. (whole 0 ≤ℤ x) × Covers x [] (hops r) minimums) same
            (ground arith, Covers-mono g (with_margin g) [] (hops r) minimums up covers)
    ]
