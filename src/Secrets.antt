-- ===== src/Secrets.antt =====
-- src/bitcoiners_dca/persistence/secrets.py: the store of encrypted credentials. Fernet is a
-- parameter: `encrypt key seed text`, whose seed is the time and the nonce, and `decrypt`, which is
-- `none` for an invalid token. `none` as a result is a raised exception. An open SQLite connection
-- reads its own writes before they are committed: `rows` is what it reads, `committed` what every
-- other connection reads.
pub mod Rotation
use bitcoiners_dca.Prelude.{
  ℕ, suc, String, Bool, true, false, Option, none, some, List, [], ◌∷◌, if◌then◌else◌, str_eq, ◌<>◌,
  ◌>>=◌,
}
use bitcoiners_dca.Prelude.Sort.{sort}
use bitcoiners_dca.Prelude.Dict.{Dict, lookup, assign, erase}

pub record Sealed (C : Type 0) : Type 0 where
  pub ciphertext : C
  pub updated_at : ℕ

-- The `secrets` table and the key in use.
pub record SecretStore (K C : Type 0) : Type 0 where
  pub fernet : K
  pub rows : Dict (Sealed C)
  pub committed : Dict (Sealed C)

-- What `list` shows of a value.
pub data Redacted : Type 0 where
  empty bullets decrypt_failed : Redacted

pub record SecretEntry : Type 0 where
  pub key : String
  pub redacted : Redacted
  pub updated_at : ℕ

-- `_redact`
unfoldable pub redact : String → Redacted
redact value = if str_eq value "" then empty else bullets

-- `_EXCHANGE_KEYS`
unfoldable pub required_fields : String → List String
required_fields exchange =
    if str_eq exchange "okx"
    then "api_key" ∷ "api_secret" ∷ "passphrase" ∷ []
    else if str_eq exchange "binance"
    then "api_key" ∷ "api_secret" ∷ []
    else if str_eq exchange "bitoasis"
    then "token" ∷ []
    else []

-- The table is written and committed.
abbrev commit : {K C : Type 0} → SecretStore K C → Dict (Sealed C) → SecretStore K C
commit s rows = record { fernet = s.fernet; rows = rows; committed = rows }

module _ {K C : Type 0} (encrypt : K → ℕ → String → C) (decrypt : K → C → Option String) where
  abbrev pub sealed : K → ℕ → String → Sealed C
  sealed k now value = record { ciphertext = encrypt k now value; updated_at = now }

  -- `set`
  unfoldable pub set : ℕ → String → String → SecretStore K C → Option (SecretStore K C)
  unfolding assign
  set now key value s =
      if str_eq key ""
      then none
      else some (commit s (assign key (sealed s.fernet now value) s.rows))

  abbrev pub opened : K → Option (Sealed C) → Option (Option String)
  opened k none = some none
  opened k (some row) = decrypt k row.ciphertext >>= λ value. some (some value)

  -- `get`; `some none` is an absent secret.
  unfoldable pub get : String → SecretStore K C → Option (Option String)
  unfolding lookup
  get key s = opened s.fernet (lookup key s.rows)

  abbrev is_present : Option (Sealed C) → Bool
  is_present none = false
  is_present (some row) = true

  -- `delete`
  unfoldable pub delete : String → SecretStore K C → Bool × SecretStore K C
  unfolding lookup erase
  delete key s = (is_present (lookup key s.rows), commit s (erase key s.rows))

  abbrev shown : Option String → Redacted
  shown none = decrypt_failed
  shown (some value) = redact value

  abbrev entry : K → String × Sealed C → SecretEntry
  entry k (key, row) = record {
    key = key;
    redacted = shown (decrypt k row.ciphertext);
    updated_at = row.updated_at;
  }

  abbrev entries : K → List (String × Sealed C) → List SecretEntry
  entries k [] = []
  entries k (row ∷ rows) = entry k row ∷ entries k rows

  -- `list`, where `before` is SQLite's order of the keys.
  unfoldable pub list : (String → String → Bool) → SecretStore K C → List SecretEntry
  unfolding sort redact
  list before s = entries s.fernet (sort (λ a b. before a.0 b.0) s.rows)

  abbrev pub also_rotated : Option ℕ × Dict (Sealed C) → Option ℕ × Dict (Sealed C)
  also_rotated (none, t) = (none, t)
  also_rotated (some n, t) = (some (suc n), t)

  abbrev pub with_plain :
      K
      → ℕ
      → String
      → Option String
      → Dict (Sealed C)
      → (Dict (Sealed C) → Option ℕ × Dict (Sealed C))
      → Option ℕ × Dict (Sealed C)
  with_plain new now key none t rest = (none, t)
  with_plain new now key (some plain) t rest =
      also_rotated (rest (assign key (sealed new now plain) t))

  -- The loop of `rotate_key` over the fetched rows, on the table `t`.
  unfoldable pub rotate_rows :
      K → K → ℕ → Dict (Sealed C) → Dict (Sealed C) → Option ℕ × Dict (Sealed C)
  unfolding assign
  rotate_rows old new now [] t = (some 0, t)
  rotate_rows old new now ((key, row) ∷ fetched) t =
      let rest = λ (t' : Dict (Sealed C)). rotate_rows old new now fetched t' in
      with_plain new now key (decrypt old row.ciphertext) t rest

  -- A failed loop leaves its updates in an open transaction.
  abbrev pub finish : K → SecretStore K C → Option ℕ × Dict (Sealed C) → Option ℕ × SecretStore K C
  finish new s (none, t) = (none, record { fernet = s.fernet; rows = t; committed = s.committed })
  finish new s (some n, t) = (some n, record { fernet = new; rows = t; committed = t })

  -- `rotate_key`; `none` is a new key that Fernet refuses.
  unfoldable pub rotate_key : Option K → ℕ → SecretStore K C → Option ℕ × SecretStore K C
  unfolding rotate_rows
  rotate_key none now s = (none, s)
  rotate_key (some new) now s = finish new s (rotate_rows s.fernet new now s.rows s.rows)

  -- `if val` of one field
  abbrev add_field : String → Option (Option String) → Option (Dict String) → Option (Dict String)
  add_field field none out = none
  add_field field (some none) out = out
  add_field field (some (some value)) out =
      if str_eq value "" then out else (out >>= λ d. some ((field, value) ∷ d))

  unfoldable pub fields_of : SecretStore K C → String → List String → Option (Dict String)
  unfolding get
  fields_of s exchange [] = some []
  fields_of s exchange (field ∷ fields) =
      add_field field (get (exchange <> "." <> field) s) (fields_of s exchange fields)

  -- `credentials_for`
  unfoldable pub credentials_for : SecretStore K C → String → Option (Dict String)
  unfolding fields_of required_fields
  credentials_for s exchange = fields_of s exchange (required_fields exchange)
