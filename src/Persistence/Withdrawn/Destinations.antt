-- ===== src/Persistence/Withdrawn/Destinations.antt =====
-- What the book of destinations of src/bitcoiners_dca/persistence/db.py holds of each place.
use mathlib.Core.Path.{subst}
use bitcoiners_dca.Prelude.{
  ℕ, ◌≡◌, refl, ap, sym, ◌∙◌, inl, inr, String, true, false, ◌||◌, Option, none, some, List, [],
  ◌∷◌, keep, any, if◌then◌else◌, str_eq, arith, Bool-cases,
}
use bitcoiners_dca.Prelude.Dict.{str_eq→eq, str_eq_refl}
use bitcoiners_dca.Persistence.Withdrawn.{
  Place, Destination, Use, same_place, coalesce, binance_whitelist, source_after, inserted, updated,
  record_destination, record_destinations,
}

same_place-eq : (p q : Place) → same_place p q ≡ true → p ≡ q
unfolding same_place
same_place-eq p q e =
    let x : str_eq p.exchange q.exchange ≡ true = ground arith in
    let y : str_eq p.address q.address ≡ true = ground arith in
    let z : str_eq p.network q.network ≡ true = ground arith in
    let x' = str_eq→eq p.exchange q.exchange x in
    let y' = str_eq→eq p.address q.address y in
    let z' = str_eq→eq p.network q.network z in
    λ i. record { exchange = x' i; address = y' i; network = z' i }

same_place_refl : (p : Place) → same_place p p ≡ true
unfolding same_place
same_place_refl p = rw (str_eq_refl p.exchange, str_eq_refl p.address, str_eq_refl p.network) refl

-- The rows of a place.
abbrev pub rows_at : Place → List Destination → List Destination
rows_at k = keep (λ d. same_place k d.place)

-- The uses of a place.
abbrev pub uses_at : Place → List Use → List Use
uses_at k = keep (λ u. same_place k u.place)

abbrev upserted : Use → List Destination → List Destination
upserted u [] = inserted u ∷ []
upserted u (d ∷ ds) = updated u d ∷ ds

record_destination-rows_at :
    (k : Place) (u : Use) (ds : List Destination)
    → rows_at k (record_destination u ds)
      ≡ (if same_place k u.place then upserted u (rows_at k ds) else rows_at k ds)
unfolding record_destination
record_destination-rows_at k u [] = refl
record_destination-rows_at k u (d ∷ ds) = elim (Bool-cases (same_place u.place d.place)) [
  | inl same ↦
      let e : same_place k u.place ≡ same_place k d.place =
        ap (same_place k) (same_place-eq u.place d.place same) in
      elim (Bool-cases (same_place k d.place)) [
        | inl at_k ↦ rw (same, e, at_k) refl
        | inr off_k ↦ rw (same, e, off_k) refl
      ]
  | inr apart ↦
      let ih = record_destination-rows_at k u ds in
      elim (Bool-cases (same_place k d.place)) [
        | inl at_k ↦
            let off : same_place k u.place ≡ false = elim (Bool-cases (same_place k u.place)) [
              | inl at_u ↦
                  let e : u.place ≡ d.place =
                    sym (same_place-eq k u.place at_u) ∙ same_place-eq k d.place at_k in
                  let h : true ≡ false =
                    sym (same_place_refl d.place)
                    ∙ subst (λ p. same_place p d.place ≡ false) e apart in
                  cc
              | inr off_u ↦ off_u
            ] in
            let ih' : rows_at k (record_destination u ds) ≡ rows_at k ds = rw off at ih in
            rw (apart, at_k, off) (ap (λ xs. d ∷ xs) ih')
        | inr off_k ↦ rw (apart, off_k) ih
      ]
]

-- What a call leaves in the table of a row.
abbrev upserted_all : List Use → List Destination → List Destination
upserted_all [] ds = ds
upserted_all (u ∷ us) ds = upserted_all us (upserted u ds)

record_destinations-rows_at :
    (k : Place) (us : List Use) (ds : List Destination)
    → rows_at k (record_destinations us ds) ≡ upserted_all (uses_at k us) (rows_at k ds)
unfolding record_destinations
record_destinations-rows_at k [] ds = refl
record_destinations-rows_at k (u ∷ us) ds =
    let ih = record_destinations-rows_at k us (record_destination u ds) in
    let step = record_destination-rows_at k u ds in
    elim (Bool-cases (same_place k u.place)) [
      | inl at_u ↦
          let step' : rows_at k (record_destination u ds) ≡ upserted u (rows_at k ds) =
            rw at_u at step in
          rw at_u (ih ∙ ap (upserted_all (uses_at k us)) step')
      | inr off_u ↦
          let step' : rows_at k (record_destination u ds) ≡ rows_at k ds = rw off_u at step in
          rw off_u (ih ∙ ap (upserted_all (uses_at k us)) step')
    ]

-- The last label that was given.
abbrev pub last_label : List Use → Option String
last_label [] = none
last_label (u ∷ us) = coalesce (last_label us) u.label

abbrev pub last_time : ℕ → List Use → ℕ
last_time t [] = t
last_time t (u ∷ us) = last_time u.now us

abbrev last_source : String → List Use → String
last_source s [] = s
last_source s (u ∷ us) = last_source u.source us

-- The source of the whitelist if it was ever given, and the last one otherwise.
abbrev pub best_source : String → List Use → String
best_source s us =
    if str_eq s binance_whitelist || any (λ u. str_eq u.source binance_whitelist) us
    then binance_whitelist
    else last_source s us

-- A row after more uses of its place.
abbrev pub held_after : Destination → List Use → Destination
held_after d us = record {
  place = d.place;
  label = coalesce (last_label us) d.label;
  source = best_source d.source us;
  first_used_at = d.first_used_at;
  last_used_at = last_time d.last_used_at us;
}

-- The only row of a place that was used.
abbrev pub described : List Use → List Destination
described [] = []
described (u ∷ us) = held_after (inserted u) us ∷ []

coalesce_assoc : (a b c : Option String) → coalesce a (coalesce b c) ≡ coalesce (coalesce a b) c
coalesce_assoc none b c = refl
coalesce_assoc (some l) b c = refl

best_source-source_after :
    (u : Use) (s : String) (us : List Use)
    → best_source (source_after u.source s) us ≡ best_source s (u ∷ us)
best_source-source_after u s us = elim (Bool-cases (str_eq s binance_whitelist)) [
  | inl listed ↦ rw (listed) (rw listed refl)
  | inr manual ↦ rw manual refl
]

best_source_nil : (s : String) → best_source s [] ≡ s
best_source_nil s = elim (Bool-cases (str_eq s binance_whitelist)) [
  | inl listed ↦ rw listed (sym (str_eq→eq s binance_whitelist listed))
  | inr manual ↦ rw manual refl
]

upserted_all-held_after :
    (us : List Use) (d : Destination) → upserted_all us (d ∷ []) ≡ held_after d us ∷ []
upserted_all-held_after [] d = λ i. record d { source = sym (best_source_nil d.source) i } ∷ []
upserted_all-held_after (u ∷ us) d = upserted_all-held_after us (updated u d) ∙ λ i.
    record (held_after d (u ∷ us)) {
      label = coalesce_assoc (last_label us) u.label d.label i;
      source = best_source-source_after u d.source us i;
    }
    ∷ []

-- A book that starts empty has no row for a place that was never used, and one row for any other
-- place, with the times of its first and its last use, the last label that was given, and as its
-- source the whitelist, if any use came from there, and that of the last use otherwise.
pub record_destinations-described :
    (k : Place) (us : List Use) → rows_at k (record_destinations us []) ≡ described (uses_at k us)
record_destinations-described k us = record_destinations-rows_at k us [] ∙ each (uses_at k us)
  where
    each : (vs : List Use) → upserted_all vs [] ≡ described vs
    each [] = refl
    each (v ∷ vs) = upserted_all-held_after vs (inserted v)
