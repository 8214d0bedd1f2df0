-- ===== src/Persistence/Expiry.antt =====
-- The lock at later times, after it was taken and after its release.
use bitcoiners_dca.Prelude.{
  ℕ, ◌+◌, ◌≤◌, ◌<◌, ◌≡◌, refl, sym, ◌∙◌, ap, inl, inr, String, true, false, Option, none, some,
  arith, Bool-cases, lt→ltb, str_eq,
}
use bitcoiners_dca.Persistence.{
  Lock, is_fresh, is_held, held_by, try_acquire_cycle_lock, is_clearable, release_cycle_lock,
}

module _ (ttl : ℕ) where
  pub acquired :
      (p : String) (now : ℕ) (lock lock' : Lock)
      → try_acquire_cycle_lock ttl p now lock ≡ (true, lock')
      → (is_held ttl now lock ≡ false) × (lock' ≡ some (held_by p now))
  unfolding try_acquire_cycle_lock
  acquired p now lock lock' e = elim (Bool-cases (is_held ttl now lock)) [
    | inl held ↦ absurd (
        let h : (false, lock) ≡ (true, lock') = rw held at e in
        let b : false ≡ true = ap (λ r. r.0) h in cc)
    | inr free ↦ (
      free,
      let h : (true, some (held_by p now)) ≡ (true, lock') = rw free at e in sym (ap (λ r. r.1) h),
    )
  ]

  stale_later :
      (a b : ℕ) (stamp : Option ℕ)
      → a ≤ b
      → is_fresh ttl a stamp ≡ false
      → is_fresh ttl b stamp ≡ false
  stale_later a b none le e = refl
  stale_later a b (some n) le e = ground arith

  pub expired_later :
      (a b : ℕ) (lock : Lock) → a ≤ b → is_held ttl a lock ≡ false → is_held ttl b lock ≡ false
  expired_later a b none le e = refl
  expired_later a b (some value) le e = stale_later a b value.stamp le e

  pub release-expires :
      (p : String) (n : ℕ) (lock : Lock)
      → is_held ttl n lock ≡ false
      → is_held ttl n (release_cycle_lock p lock) ≡ false
  unfolding release_cycle_lock
  release-expires p n none e = refl
  release-expires p n (some value) e = elim (Bool-cases (is_clearable p value.owner)) [
    | inl mine ↦ rw mine refl
    | inr other ↦ rw other e
  ]

  pub release-other :
      (p q : String) (n : ℕ) (lock : Lock)
      → str_eq q p ≡ false
      → lock ≡ some (held_by q n)
      → release_cycle_lock p lock ≡ some (held_by q n)
  unfolding release_cycle_lock
  release-other p q n lock ne e = ap (release_cycle_lock p) e ∙ rw ne refl

  pub own_is_held :
      (p : String) (now since : ℕ) (lock : Lock)
      → lock ≡ some (held_by p since)
      → now < since + ttl
      → is_held ttl now lock ≡ true
  own_is_held p now since lock e fresh = ap (is_held ttl now) e ∙ lt→ltb now (since + ttl) fresh
