-- ===== src/Persistence.antt =====
-- src/bitcoiners_dca/persistence/db.py: the cycle lock that the daemon and the dashboard share. The
-- lock is one value of the `meta` table, read and written in one transaction. Its text is
-- "<time>|<owner>", held here as its two halves; the owner is unique to a process.
pub mod Expiry
pub mod Exclusion
pub mod Withdrawn
pub mod Totals
use bitcoiners_dca.Prelude.{
  ℕ, ◌+◌, String, Bool, true, false, Option, none, some, if◌then◌else◌, ltb, str_eq,
}

-- `stamp` is absent if the text is no time, and `owner` in a value of an older version.
pub record LockValue : Type 0 where
  pub stamp : Option ℕ
  pub owner : Option String

-- No row, and an empty value, are `none`.
abbrev pub Lock : Type 0
Lock = Option LockValue

-- `CYCLE_LOCK_TTL_SECONDS`
abbrev pub cycle_lock_ttl_seconds : ℕ
cycle_lock_ttl_seconds = 2400

-- `age < ttl_seconds`, where the age of a time that cannot be read is one more than that.
abbrev pub is_fresh : ℕ → ℕ → Option ℕ → Bool
is_fresh ttl now none = false
is_fresh ttl now (some stamp) = ltb now (stamp + ttl)

abbrev pub is_held : ℕ → ℕ → Lock → Bool
is_held ttl now none = false
is_held ttl now (some value) = is_fresh ttl now value.stamp

abbrev pub held_by : String → ℕ → LockValue
held_by owner now = record { stamp = some now; owner = some owner }

-- `try_acquire_cycle_lock`
unfoldable pub try_acquire_cycle_lock : ℕ → String → ℕ → Lock → Bool × Lock
try_acquire_cycle_lock ttl owner now lock =
    if is_held ttl now lock then (false, lock) else (true, some (held_by owner now))

abbrev pub is_clearable : String → Option String → Bool
is_clearable me none = true
is_clearable me (some owner) = str_eq owner me

-- `release_cycle_lock`
unfoldable pub release_cycle_lock : String → Lock → Lock
release_cycle_lock me none = none
release_cycle_lock me (some value) = if is_clearable me value.owner then none else some value
