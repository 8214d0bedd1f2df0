-- ===== src/Persistence/Withdrawn.antt =====
-- src/bitcoiners_dca/persistence/db.py: the rows of withdrawals, and the book of their
-- destinations. Instants are numbers, which compare as their ISO texts in UTC do. Rows whose
-- sorting column is equal come in the table's order, which SQLite leaves open.
pub mod Destinations
pub mod Recent
use bitcoiners_dca.Prelude.{
  ℕ, zero, suc, ◌+◌, ◌*◌, String, Bool, true, false, ◌&&◌, not, Option, none, some, List, [], ◌∷◌,
  ◌++◌, keep, any, leb, ◌==◌, if◌then◌else◌, str_eq,
}
use bitcoiners_dca.Prelude.Sort.{sort}
use bitcoiners_dca.Withdrawals.{Withdrawal}

-- What is unique in `withdrawal_destinations`.
pub record Place : Type 0 where
  pub exchange : String
  pub address : String
  pub network : String

-- A row of `withdrawal_destinations`.
pub record Destination : Type 0 where
  pub place : Place
  pub label : Option String
  pub source : String
  pub first_used_at : ℕ
  pub last_used_at : ℕ

-- The arguments of a call of `record_destination`, with its time.
pub record Use : Type 0 where
  pub place : Place
  pub label : Option String
  pub source : String
  pub now : ℕ

unfoldable pub same_place : Place → Place → Bool
same_place p q =
    str_eq p.exchange q.exchange && (str_eq p.address q.address && str_eq p.network q.network)

-- `COALESCE`
abbrev pub coalesce : Option String → Option String → Option String
coalesce none l = l
coalesce (some l) old = some l

abbrev pub binance_whitelist : String
binance_whitelist = "binance_whitelist"

abbrev pub source_after : String → String → String
source_after new old = if str_eq old binance_whitelist then old else new

abbrev pub inserted : Use → Destination
inserted u = record {
  place = u.place;
  label = u.label;
  source = u.source;
  first_used_at = u.now;
  last_used_at = u.now;
}

-- `DO UPDATE SET`
abbrev pub updated : Use → Destination → Destination
updated u d = record {
  place = d.place;
  label = coalesce u.label d.label;
  source = source_after u.source d.source;
  first_used_at = d.first_used_at;
  last_used_at = u.now;
}

-- `record_destination`
unfoldable pub record_destination : Use → List Destination → List Destination
unfolding same_place
record_destination u [] = inserted u ∷ []
record_destination u (d ∷ ds) =
    let rest = record_destination u ds in
    if same_place u.place d.place then updated u d ∷ ds else d ∷ rest

unfoldable pub record_destinations : List Use → List Destination → List Destination
unfolding record_destination
record_destinations [] ds = ds
record_destinations (u ∷ us) ds = record_destinations us (record_destination u ds)

-- `LIMIT`
abbrev pub take {ℓ} : {A : Type ℓ} → ℕ → List A → List A
take zero xs = []
take (suc n) [] = []
take (suc n) (x ∷ xs) = x ∷ take n xs

-- `list_destinations`
unfoldable pub list_destinations : String → ℕ → List Destination → List Destination
unfolding sort
list_destinations exchange limit ds = take limit (
    sort (λ d e. leb e.last_used_at d.last_used_at)
      (keep (λ d. str_eq d.place.exchange exchange) ds))

abbrev pub is_other : Withdrawal → Withdrawal → Bool
is_other w v = not (str_eq v.exchange w.exchange && v.withdrawal_id == w.withdrawal_id)

-- `record_withdrawal`: a row that is replaced goes to the end.
unfoldable pub record_withdrawal : Withdrawal → List Withdrawal → List Withdrawal
record_withdrawal w ws = keep (is_other w) ws ++ (w ∷ [])

abbrev pub is_recent : String → ℕ → ℕ → Withdrawal → Bool
is_recent exchange since_minutes now w =
    str_eq w.exchange exchange && leb now (w.created_at + since_minutes * 60)

-- `recent_withdrawal_exists`, for bitcoin, in which all withdrawals are, at the second `now`
unfoldable pub recent_withdrawal_exists : String → ℕ → ℕ → List Withdrawal → Bool
recent_withdrawal_exists exchange since_minutes now = any (is_recent exchange since_minutes now)
