-- ===== src/Routing.antt =====
-- src/bitcoiners_dca/core/routing.py: hops and routes from the quote currency to the target asset.
-- `none` is an exception: a division by zero, or the ValueError or NotImplementedError that the
-- code raises. `label`, a text for the user, is left out.
pub mod Floors
use bitcoiners_dca.Prelude.{
  String, Bool, true, false, ◌&&◌, Option, none, some, List, [], ◌∷◌, ◌++◌, if◌then◌else◌, ◌>>=◌,
  ◌==◌, str_eq, length, any,
}
use bitcoiners_dca.Prelude.Int.{pos, ltb_ℤ, leb_ℤ, magnitude}
use bitcoiners_dca.Decimal.{Decimal, whole, literal, add, sub, mul, div, max_of}
use bitcoiners_dca.Models.{Pair, OrderSide, buy, sell, OrderMinimum, positive}

pub record TradeHop : Type 0 where
  pub exchange : String
  pub pair : Pair
  pub side : OrderSide
  pub price : Decimal
  pub taker_pct : Decimal

abbrev pub input_of : OrderSide → Pair → String
input_of buy p = p.quote
input_of sell p = p.base

abbrev pub output_of : OrderSide → Pair → String
output_of buy p = p.base
output_of sell p = p.quote

-- `TradeHop.input_ccy` and `TradeHop.output_ccy`
abbrev pub hop_input_ccy : TradeHop → String
hop_input_ccy h = input_of h.side h.pair

abbrev pub hop_output_ccy : TradeHop → String
hop_output_ccy h = output_of h.side h.pair

abbrev output_for : OrderSide → Decimal → Decimal → Decimal → Option Decimal
output_for buy price taker amount = div amount (mul price (add (whole 1) taker))
output_for sell price taker amount = some (mul (mul amount price) (sub (whole 1) taker))

-- `TradeHop.expected_output`
unfoldable pub hop_expected_output : TradeHop → Decimal → Option Decimal
hop_expected_output h amount = output_for h.side h.price h.taker_pct amount

-- The hops are `first ∷ rest`: a route has at least one.
pub record TradeRoute : Type 0 where
  pub first : TradeHop
  pub rest : List TradeHop
  pub quote_balance : Option Decimal
  pub cross_exchange : Bool
  pub fixed_costs : Decimal
  pub quote_to_input_rate : Option Decimal

abbrev pub hops : TradeRoute → List TradeHop
hops r = r.first ∷ r.rest

-- The test of `__post_init__`: the output of each hop is the input of the next.
unfoldable pub chains : TradeHop → List TradeHop → Bool
chains h [] = true
chains h (k ∷ ks) = str_eq (hop_output_ccy h) (hop_input_ccy k) && chains k ks

-- `TradeRoute(...)` with `__post_init__`.
unfoldable pub make_route :
    List TradeHop → Option Decimal → Bool → Decimal → Option Decimal → Option TradeRoute
unfolding chains
make_route [] balance cross costs rate = none
make_route (h ∷ ks) balance cross costs rate =
    if chains h ks
    then some (record {
      first = h;
      rest = ks;
      quote_balance = balance;
      cross_exchange = cross;
      fixed_costs = costs;
      quote_to_input_rate = rate;
    })
    else none

abbrev pub route_input_ccy : TradeRoute → String
route_input_ccy r = hop_input_ccy r.first

abbrev pub last_hop : TradeHop → List TradeHop → TradeHop
last_hop h [] = h
last_hop h (k ∷ ks) = last_hop k ks

abbrev pub route_output_ccy : TradeRoute → String
route_output_ccy r = hop_output_ccy (last_hop r.first r.rest)

unfoldable pub is_direct : TradeRoute → Bool
is_direct r = length (hops r) == 1

abbrev seen_exchanges : List String → List TradeHop → List String
seen_exchanges seen [] = seen
seen_exchanges seen (h ∷ hs) =
    seen_exchanges (if any (str_eq h.exchange) seen then seen else seen ++ h.exchange ∷ []) hs

unfoldable pub exchanges_involved : TradeRoute → List String
exchanges_involved r = seen_exchanges [] (hops r)

-- The loop of `TradeRoute.expected_output`.
unfoldable pub through : List TradeHop → Decimal → Option Decimal
unfolding hop_expected_output
through [] amount = some amount
through (h ∷ hs) amount = do out ← hop_expected_output h amount; through hs out

unfoldable pub expected_output : TradeRoute → Decimal → Option Decimal
unfolding through
expected_output r input_amount =
    let amount = sub input_amount r.fixed_costs in
    if leb_ℤ amount (pos 0) then some (whole 0) else through (hops r) amount

-- The candidates of one hop for its own floor, in the hop's input currency; `max` of them.
abbrev base_floor : Decimal → Option Decimal → Decimal
base_floor price none = whole 0
base_floor price (some m) = if positive m then mul m price else whole 0

abbrev quote_floor : Bool → Option Decimal → Decimal
quote_floor matches none = whole 0
quote_floor matches (some m) = if positive m && matches then m else whole 0

unfoldable pub hop_floor : TradeHop → OrderMinimum → Decimal
hop_floor h om =
    max_of (max_of (whole 0) (base_floor h.price om.min_base))
      (quote_floor (str_eq om.quote_currency (hop_input_ccy h)) om.min_quote)

-- The loop over `self.hops[:i]`: a floor carried back through the earlier hops, fees included.
unfoldable pub carry_back : List TradeHop → Decimal → Decimal
carry_back [] floor = floor
carry_back (p ∷ ps) floor = carry_back ps (mul (mul floor p.price) (add (whole 1) p.taker_pct))

-- One round of the loop: the larger of the floor so far and this hop's.
unfoldable pub raise_floor : List TradeHop → TradeHop → OrderMinimum → Decimal → Decimal
unfolding hop_floor carry_back
raise_floor earlier h om floor =
    let f = carry_back earlier (hop_floor h om) in if ltb_ℤ floor f then f else floor

abbrev is_buy : OrderSide → Bool
is_buy buy = true
is_buy sell = false

unfoldable pub floors :
    List TradeHop → List TradeHop → List (Option OrderMinimum) → Decimal → Option Decimal
unfolding raise_floor
floors earlier [] [] floor = some floor
floors earlier [] (m ∷ ms) floor = none
floors earlier (h ∷ hs) [] floor = none
floors earlier (h ∷ hs) (none ∷ ms) floor = floors (earlier ++ h ∷ []) hs ms floor
floors earlier (h ∷ hs) (some om ∷ ms) floor =
    let rest = floors (earlier ++ h ∷ []) hs ms (raise_floor earlier h om floor) in
    if is_buy h.side then rest else none

-- `TradeRoute.min_input_amount`. Minimums of another number than the hops are the ValueError.
unfoldable pub min_input_amount : TradeRoute → List (Option OrderMinimum) → Option Decimal
unfolding floors
min_input_amount r minimums = do
  floor ← floors [] (hops r) minimums (whole 0)
  some (if positive floor then mul floor (literal 101 2) else floor)

-- A price, or `Decimal("Infinity")`.
pub data Price : Type 0 where
  finite : Decimal → Price
  infinite : Price

-- `TradeRoute.effective_price`
unfoldable pub effective_price : TradeRoute → Decimal → Option Price
unfolding expected_output
effective_price r input_amount = expected_output r input_amount >>= λ out.
    if magnitude out == 0 then some infinite else (div input_amount out >>= λ p. some (finite p))
