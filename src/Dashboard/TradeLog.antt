-- ===== src/Dashboard/TradeLog.antt =====
-- `_decorate_trades` of src/bitcoiners_dca/web/dashboard.py: the legs of a cycle shown as one row.
-- Instants are microseconds; a stored amount that is empty or no number is `none`. `pick` stands
-- for the order in which Python runs through a set of texts.
pub mod Groups
use mathlib.Core.List.{reverse}
use bitcoiners_dca.Prelude.{
  ℕ, ◌+◌, ◌-◌, ◌*◌, String, Bool, true, false, not, ◌&&◌, Option, none, some, List, [], ◌∷◌, ◌++◌,
  map, any, keep, leb, if◌then◌else◌, str_eq,
}
use bitcoiners_dca.Prelude.Sort.{sort}
use bitcoiners_dca.Decimal.{Decimal, whole, quotient}
use bitcoiners_dca.Models.{Pair, positive}

-- A row of `trades`, as far as the table shows it.
pub record Leg : Type 0 where
  pub timestamp : ℕ
  pub exchange : String
  pub pair : Pair
  pub amount_quote : Option Decimal
  pub amount_base : Option Decimal
  pub status : String
  pub order_id : String

-- A row of the table.
pub record Decorated : Type 0 where
  pub timestamp : ℕ
  pub exchange : String
  pub route : List String
  pub is_multi_hop : Bool
  pub spent : Decimal
  pub spent_ccy : String
  pub received : Decimal
  pub received_ccy : String
  pub effective_price : Decimal
  pub status : String
  pub order_ids : List String

-- A group that is not empty: its first leg and the others.
abbrev pub Group : Type 0
Group = Leg × List Leg

abbrev pub legs_of : Group → List Leg
legs_of g = g.0 ∷ g.1

unfoldable pub last_of : Leg → List Leg → Leg
last_of l [] = l
last_of l (m ∷ ms) = last_of m ms

abbrev pub window : ℕ
window = 10 * 1_000_000

-- The test by which a leg joins the group that ends with `prev`, for legs in the order of time.
abbrev pub joins : Leg → Leg → Bool
joins prev l = str_eq l.exchange prev.exchange && leb (l.timestamp - prev.timestamp) window

-- The loop over the sorted legs, with the group so far, its last leg apart; groups come in the
-- order in which they are closed.
unfoldable pub collect : Leg → List Leg → Leg → List Leg → List Group
collect first middle prev [] = (first, middle) ∷ []
collect first middle prev (l ∷ ls) =
    let joined = collect first (middle ++ (l ∷ [])) l ls in
    let closed = (first, middle) ∷ collect l [] l ls in if joins prev l then joined else closed

unfoldable pub groups_of : List Leg → List Group
unfolding collect
groups_of [] = []
groups_of (l ∷ ls) = collect l [] l ls

abbrev pub not_later : Leg → Leg → Bool
not_later x y = leb x.timestamp y.timestamp

abbrev or_zero : Option Decimal → Decimal
or_zero none = whole 0
or_zero (some d) = d

abbrev pub currencies : Group → List String
currencies (first, rest) = first.pair.quote ∷ map (λ l. l.pair.base) (first ∷ rest)

module _ (pick : List String → String) where
  abbrev unfilled : List Leg → List String
  unfilled legs = keep (λ s. not (str_eq s "filled")) (map (λ l. l.status) legs)

  abbrev merge : List String → String
  merge [] = "filled"
  merge (s ∷ ss) = if any (str_eq "cancelled") (s ∷ ss) then "cancelled" else pick (s ∷ ss)

  -- `merged_status`
  unfoldable pub merged_status : List Leg → String
  merged_status legs = merge (unfilled legs)

  -- `_close_group`
  unfoldable pub close_group : Group → Decorated
  unfolding merged_status last_of quotient
  close_group (first, rest) =
      let last = last_of first rest in
      let spent = or_zero first.amount_quote in
      let received = or_zero last.amount_base in
      record {
        timestamp = first.timestamp;
        exchange = first.exchange;
        route = currencies (first, rest);
        is_multi_hop = elim rest [ [] ↦ false | m ∷ ms ↦ true ];
        spent = spent;
        spent_ccy = first.pair.quote;
        received = received;
        received_ccy = last.pair.base;
        effective_price = if positive received then quotient spent received else whole 0;
        status = merged_status (first ∷ rest);
        order_ids = map (λ l. l.order_id) (first ∷ rest);
      }

  -- `_decorate_trades`: the newest group comes first.
  unfoldable pub decorate_trades : List Leg → List Decorated
  unfolding groups_of close_group sort
  decorate_trades rows = reverse (map close_group (groups_of (sort not_later rows)))
