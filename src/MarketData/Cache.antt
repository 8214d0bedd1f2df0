-- ===== src/MarketData/Cache.antt =====
-- What the file cache answers.
use mathlib.Core.Path.{subst}
use bitcoiners_dca.Prelude.{
  some-inj, false, ℕ, ◌-◌, ◌≤◌, ◌≡◌, refl, ap, Option, none, some, List, [], ◌∷◌, Bool-cases, inl,
  inr, ltb, arith,
}
use bitcoiners_dca.MarketData.{
  PricePoint, CacheFile, missing, stale, cached, cache_ttl_seconds, free_tier_max_days, read_cache,
  on_answer, on_cache, fetch,
}

-- The file holds these points since a time, from which on they are served for an hour.
abbrev pub Serves : ℕ → ℕ → List PricePoint → CacheFile → Type 0
Serves days now points file =
    (t : ℕ) × (file ≡ cached t points)
    × (now - t ≤ cache_ttl_seconds)
    × ((later : ℕ) (answer : Option (List PricePoint))
        → later - t ≤ cache_ttl_seconds
        → fetch days later answer file ≡ (some points, file))

fetch_cached :
    (days t : ℕ) (points : List PricePoint) (later : ℕ) (answer : Option (List PricePoint))
    → ltb free_tier_max_days days ≡ false
    → later - t ≤ cache_ttl_seconds
    → fetch days later answer (cached t points) ≡ (some points, cached t points)
unfolding fetch read_cache
fetch_cached days t points later answer few young =
    let fresh : ltb cache_ttl_seconds (later - t) ≡ false = ground arith in rw (few, fresh) refl

on_answer-Serves :
    (days now : ℕ) (answer : Option (List PricePoint)) (file : CacheFile)
    → ltb free_tier_max_days days ≡ false
    → (points : List PricePoint) (file' : CacheFile)
    → on_answer now answer file ≡ (some points, file')
    → Serves days now points file'
on_answer-Serves days now none file few points file' h = absurd (cc (ap (λ r. r.0) h))
on_answer-Serves days now (some []) file few points file' h = absurd (cc (ap (λ r. r.0) h))
on_answer-Serves days now (some (p ∷ ps)) file few points file' h =
    let same : p ∷ ps ≡ points = some-inj (ap (λ r. r.0) h) in
    subst (λ x. Serves days now x file') same
      (subst (λ x. Serves days now (p ∷ ps) x) (ap (λ r. r.1) h)
        (
          now,
          refl,
          omega arith,
          λ later answer' young. fetch_cached days now (p ∷ ps) later answer' few young,
        ))

on_read-Serves :
    (days now : ℕ) (answer : Option (List PricePoint)) (file : CacheFile)
    → ltb free_tier_max_days days ≡ false
    → (points : List PricePoint) (file' : CacheFile)
    → on_cache now answer file (read_cache now file) ≡ (some points, file')
    → Serves days now points file'
unfolding read_cache
on_read-Serves days now answer missing few points file' h =
    on_answer-Serves days now answer missing few points file' h
on_read-Serves days now answer stale few points file' h =
    on_answer-Serves days now answer stale few points file' h
on_read-Serves days now answer (cached t ps) few points file' h =
    elim (Bool-cases (ltb cache_ttl_seconds (now - t))) [
      | inl old ↦ on_answer-Serves days now answer (cached t ps) few points file' (rw old at h)
      | inr young ↦
          let h' : ◌≡◌ {A = Option (List PricePoint) × CacheFile} (some ps, cached t ps)
              (some points, file') =
            rw young at h in
          let same : ps ≡ points = some-inj (ap (λ r. r.0) h') in
          subst (λ x. Serves days now x file') same
            (subst (λ x. Serves days now ps x) (ap (λ r. r.1) h')
              (
                t,
                refl,
                ground arith,
                λ later answer' early. fetch_cached days t ps later answer' few early,
              ))
    ]

-- A fetch that gives points leaves a cache file that holds them since at most an hour, and until
-- that hour is over every further fetch of this length gives the same points and leaves the file as
-- it is, whatever CoinGecko would answer.
pub fetch-Serves :
    (days now : ℕ) (answer : Option (List PricePoint)) (file file' : CacheFile)
    (points : List PricePoint)
    → fetch days now answer file ≡ (some points, file')
    → Serves days now points file'
unfolding fetch
fetch-Serves days now answer file file' points h = elim (Bool-cases (ltb free_tier_max_days days)) [
  | inl many ↦
      let h' : ◌≡◌ {A = Option (List PricePoint) × CacheFile} (none, file) (some points, file') =
        rw many at h in
      absurd
        (let e : ◌≡◌ {A = Option (List PricePoint)} none (some points) = ap (λ r. r.0) h' in cc)
  | inr few ↦ on_read-Serves days now answer file few points file' (rw few at h)
]
