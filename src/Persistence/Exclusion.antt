-- ===== src/Persistence/Exclusion.antt =====
-- The processes that run cycles under the shared lock, crashes included.
use bitcoiners_dca.Prelude.{
  ℕ, ◌+◌, ◌≤◌, ◌<◌, ◌≡◌, refl, sym, ◌∙◌, ap, inl, inr, String, Bool, true, false, not, ◌&&◌, some,
  List, [], ◌∷◌, ◌++◌, keep, any, All, keep-All, length, ltb, arith, Bool-cases, if◌then◌else◌,
  str_eq,
}
use mathlib.Core.Path.{subst}
use bitcoiners_dca.Prelude.Dict.{str_eq→eq, str_eq_refl}
use bitcoiners_dca.Prelude.Keep.{keep-keep, keep_comm, keep-append, keep-without}
use bitcoiners_dca.Persistence.Expiry.{
  acquired, expired_later, release-expires, release-other, own_is_held,
}
use bitcoiners_dca.Persistence.{Lock, is_held, held_by, try_acquire_cycle_lock, release_cycle_lock}

-- A cycle: the process that runs it and the time it began.
pub record Cycle : Type 0 where
  pub process : String
  pub since : ℕ

-- The time, the lock, the cycles that run, and the processes of which a cycle has ended only after
-- the lock's lifetime. A process may be in several cycles: it takes the lock anew once it expired.
pub record System : Type 0 where
  pub now : ℕ
  pub lock : Lock
  pub running : List Cycle
  pub overran : List String

abbrev pub is_among : List String → String → Bool
is_among names p = any (str_eq p) names

-- Of two names, only one is among the list.
apart :
    (names : List String) (q p : String)
    → is_among names q ≡ false
    → is_among names p ≡ true
    → str_eq q p ≡ false
apart names q p out there = elim (Bool-cases (str_eq q p)) [
  | inr differs ↦ differs
  | inl same ↦
      let e : is_among names q ≡ is_among names p = ap (is_among names) (str_eq→eq q p same) in
      absurd (let h : true ≡ false = sym there ∙ sym e ∙ out in cc)
]

not-false : (b : Bool) → not b ≡ false → b ≡ true
not-false b h = ground arith

module _ (ttl : ℕ) where
  abbrev pub in_time : ℕ → Cycle → Bool
  in_time now c = ltb now (c.since + ttl)

  -- A cycle ends by the release of the lock in the name of its process, or the process crashes and
  -- leaves the lock as it is.
  pub data Step : System → System → Type 0 where
    passes : {s : System} (later : ℕ) → s.now ≤ later → Step s (record s { now = later })
    begins :
        {s : System} (p : String) (lock : Lock)
        → try_acquire_cycle_lock ttl p s.now s.lock ≡ (true, lock)
        → Step s
            (record s { lock = lock; running = record { process = p; since = s.now } ∷ s.running })
    ends :
        {s : System} (before after : List Cycle) (c : Cycle)
        → s.running ≡ before ++ c ∷ after
        → Step s (record {
          now = s.now;
          lock = release_cycle_lock c.process s.lock;
          running = before ++ after;
          overran = if in_time s.now c then s.overran else c.process ∷ s.overran;
        })
    crashes :
        {s : System} (p : String)
        → Step s (record s { running = keep (λ c. not (str_eq c.process p)) s.running })

  -- No cycle runs at first; a lock may have been left behind.
  pub data Reach : System → Type 0 where
    start :
        (now : ℕ) (lock : Lock)
        → is_held ttl (now + ttl) lock ≡ false
        → Reach (record { now = now; lock = lock; running = []; overran = [] })
    next : {s t : System} → Reach s → Step s t → Reach t

  -- The cycle has run for less than the lock's lifetime, and none of its process ever ran longer.
  abbrev pub is_live : ℕ → List String → Cycle → Bool
  is_live now overran c = in_time now c && not (is_among overran c.process)

  abbrev pub live : System → List Cycle
  live s = keep (is_live s.now s.overran) s.running

  -- At most one cycle, which holds the lock.
  abbrev Held : Lock → List Cycle → Type 0
  Held lock [] = Unit
  Held lock (c ∷ []) = lock ≡ some (held_by c.process c.since)
  Held lock (c ∷ d ∷ cs) = ⊥

  record Inv (s : System) : Type 0 where
    expires : is_held ttl (s.now + ttl) s.lock ≡ false
    holds : Held s.lock (live s)

  Held-keep :
      (p : Cycle → Bool) (lock : Lock) (cs : List Cycle) → Held lock cs → Held lock (keep p cs)
  Held-keep p lock [] h = tt
  Held-keep p lock (c ∷ []) h = elim (Bool-cases (p c)) [
    | inl kept ↦ rw kept h
    | inr gone ↦ rw gone tt
  ]
  Held-keep p lock (c ∷ d ∷ cs) h = absurd h

  -- A narrower test.
  Held-imp :
      (p q : Cycle → Bool) (lock : Lock) (cs : List Cycle)
      → ((c : Cycle) → q c ≡ true → p c ≡ true)
      → Held lock (keep p cs)
      → Held lock (keep q cs)
  Held-imp p q lock cs narrow h =
      subst (Held lock) (keep-keep p q narrow cs) (Held-keep q lock (keep p cs) h)

  only_one :
      (lock : Lock) (p : Cycle → Bool) (before after : List Cycle) (c : Cycle)
      → p c ≡ true
      → Held lock (keep p (before ++ c ∷ after))
      → keep p (before ++ after) ≡ []
  only_one lock p before after c lives h =
      keep-append p before after
      ∙ alone (keep p before) (keep p after)
          (subst (Held lock) (keep-append p before (c ∷ after) ∙ rw lives refl) h)
    where
      alone : (xs ys : List Cycle) → Held lock (xs ++ c ∷ ys) → xs ++ ys ≡ []
      alone [] [] k = refl
      alone [] (y ∷ ys) k = absurd k
      alone (x ∷ []) ys k = absurd k
      alone (x ∷ z ∷ xs) ys k = absurd k

  listed_or :
      (now : ℕ) (overran : List String) (c : Cycle)
      → let o = if in_time now c then overran else c.process ∷ overran in
        is_live now o c ≡ false → is_among o c.process ≡ true
  listed_or now overran c gone = elim (Bool-cases (in_time now c)) [
    | inl timely ↦
        let gone' : not (is_among overran c.process) ≡ false = rw timely at gone in
        rw timely (not-false _ gone')
    | inr late ↦ rw (late, str_eq_refl c.process) refl
  ]

  narrower :
      (now : ℕ) (overran : List String) (c d : Cycle)
      → is_live now (if in_time now c then overran else c.process ∷ overran) d ≡ true
      → is_live now overran d ≡ true
  narrower now overran c d h = elim (Bool-cases (in_time now c)) [
    | inl timely ↦ rw timely at h
    | inr late ↦ let h' : is_live now (c.process ∷ overran) d ≡ true = rw late at h in ground arith
  ]

  -- The holder of a free lock is no live cycle.
  none_live :
      (now : ℕ) (overran : List String) (lock : Lock) (cs : List Cycle)
      → is_held ttl now lock ≡ false
      → All (λ c. is_live now overran c ≡ true) cs
      → Held lock cs
      → cs ≡ []
  none_live now overran lock [] free alive h = refl
  none_live now overran lock (c ∷ []) free alive h =
      let fresh : now < c.since + ttl = ground (arith, alive.0) in
      let held = own_is_held ttl c.process now c.since lock h fresh in
      absurd (let q : true ≡ false = sym held ∙ free in cc)
  none_live now overran lock (c ∷ d ∷ cs) free alive h = absurd h

  begun-Held :
      (p : Cycle → Bool) (c : Cycle) (cs : List Cycle) (lock : Lock)
      → keep p cs ≡ []
      → lock ≡ some (held_by c.process c.since)
      → Held lock (keep p (c ∷ cs))
  begun-Held p c cs lock e mine = elim (Bool-cases (p c)) [
    | inl lives ↦ rw (lives, e) mine
    | inr gone ↦ rw (gone, e) tt
  ]

  -- The release of another process leaves the holder's lock.
  released-Held :
      (now : ℕ) (overran : List String) (p : String) (lock : Lock) (cs : List Cycle)
      → is_among overran p ≡ true
      → All (λ c. is_live now overran c ≡ true) cs
      → Held lock cs
      → Held (release_cycle_lock p lock) cs
  released-Held now overran p lock [] gone alive h = tt
  released-Held now overran p lock (c ∷ []) gone alive h =
      let other : is_among overran c.process ≡ false = ground (arith, alive.0) in
      release-other ttl p c.process c.since lock (apart overran c.process p other gone) h
  released-Held now overran p lock (c ∷ d ∷ cs) gone alive h = absurd h

  -- The end of the cycle c, where `p` tells the cycles that are live after it.
  ended-Held :
      (now : ℕ) (overran : List String) (lock : Lock) (before after : List Cycle) (c : Cycle)
      → (is_live now overran c ≡ false → is_among overran c.process ≡ true)
      → Held lock (keep (is_live now overran) (before ++ c ∷ after))
      → Held (release_cycle_lock c.process lock) (keep (is_live now overran) (before ++ after))
  ended-Held now overran lock before after c listed h =
      let p = is_live now overran in
      elim (Bool-cases (p c)) [
        | inl lives ↦
            subst (Held (release_cycle_lock c.process lock))
              (sym (only_one lock p before after c lives h)) tt
        | inr gone ↦
            released-Held now overran c.process lock (keep p (before ++ after)) (listed gone)
              (keep-All p (before ++ after))
              (subst (Held lock) (keep-without p before after c gone) h)
      ]

  Step-Inv : {s t : System} → Step s t → Inv s → Inv t
  Step-Inv {s} (passes later le) inv = record {
    expires = expired_later ttl (s.now + ttl) (later + ttl) s.lock (omega arith) inv.expires;
    holds =
        Held-imp (is_live s.now s.overran) (is_live later s.overran) s.lock s.running
          (λ c h. ground arith) inv.holds;
  }
  Step-Inv {s} (begins p lock got) inv =
      let (free, mine) = acquired ttl p s.now s.lock lock got in
      record {
        expires = ap (is_held ttl (s.now + ttl)) mine ∙ ground arith;
        holds =
            begun-Held (is_live s.now s.overran) _ s.running lock
              (none_live s.now s.overran s.lock (live s) free
                (keep-All (is_live s.now s.overran) s.running) inv.holds)
              mine;
      }
  Step-Inv {s} (ends before after c split) inv =
      let overran = if in_time s.now c then s.overran else c.process ∷ s.overran in
      record {
        expires = release-expires ttl c.process (s.now + ttl) s.lock inv.expires;
        holds = ended-Held s.now overran s.lock before after c (listed_or s.now s.overran c) (
            Held-imp (is_live s.now s.overran) (is_live s.now overran) s.lock (before ++ c ∷ after)
              (narrower s.now s.overran c)
              (subst (λ cs. Held s.lock (keep (is_live s.now s.overran) cs)) split inv.holds));
      }
  Step-Inv {s} (crashes p) inv = record {
    expires = inv.expires;
    holds =
        subst (Held s.lock)
          (keep_comm (λ c. not (str_eq c.process p)) (is_live s.now s.overran) s.running)
          (Held-keep (λ c. not (str_eq c.process p)) s.lock (live s) inv.holds);
  }

  Reach-Inv : {s : System} → Reach s → Inv s
  Reach-Inv (start now lock old) = record { expires = old; holds = tt }
  Reach-Inv (next r st) = Step-Inv st (Reach-Inv r)

  Held-length : (lock : Lock) (cs : List Cycle) → Held lock cs → length cs ≤ 1
  Held-length lock [] h = omega arith
  Held-length lock (c ∷ []) h = omega arith
  Held-length lock (c ∷ d ∷ cs) h = absurd h

  -- At a reachable moment at most one cycle runs that is within the lock's lifetime and of whose
  -- process no cycle ended later than that, whatever processes crashed.
  pub Reach-one_cycle : {s : System} → Reach s → length (live s) ≤ 1
  Reach-one_cycle {s} r = Held-length s.lock (live s) (Reach-Inv r).holds

  -- Once a lifetime has passed since a reachable moment at which no further process touched the
  -- lock, any process that asks for it gets it: a crash never blocks the cycles for longer.
  pub Reach-acquires :
      {s : System} (p : String) (now : ℕ)
      → Reach s
      → s.now + ttl ≤ now
      → try_acquire_cycle_lock ttl p now s.lock ≡ (true, some (held_by p now))
  unfolding try_acquire_cycle_lock
  Reach-acquires {s} p now r le =
      rw (expired_later ttl (s.now + ttl) now s.lock le (Reach-Inv r).expires) refl
