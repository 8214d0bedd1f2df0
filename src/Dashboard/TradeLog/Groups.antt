-- ===== src/Dashboard/TradeLog/Groups.antt =====
-- The rows of the table are the runs of legs that follow one another closely on one exchange.
use mathlib.Core.Path.{subst}
use mathlib.Core.List.{append_assoc, reverse}
use bitcoiners_dca.Prelude.{
  ◌≡◌, refl, sym, ◌∙◌, ap, true, false, String, List, [], ◌∷◌, ◌++◌, map, Bool-cases, inl, inr,
}
use bitcoiners_dca.Prelude.Sort.{sort}
use bitcoiners_dca.Dashboard.TradeLog.{
  Leg, Group, legs_of, last_of, joins, collect, groups_of, not_later, decorate_trades, close_group,
}

-- The legs of the groups, one group after the other.
abbrev pub flatten : List Group → List Leg
flatten [] = []
flatten (g ∷ gs) = legs_of g ++ flatten gs

-- Each leg joins the one before it.
abbrev pub Linked : Leg → List Leg → Type 0
Linked p [] = Unit
Linked p (l ∷ ls) = (joins p l ≡ true) × Linked l ls

-- Groups of linked legs, the first from a leg on, none of which the next group's first leg joins.
abbrev pub Runs : Leg → List Group → Type 0
Runs l [] = ⊥
Runs l (g ∷ []) = (g.0 ≡ l) × Linked g.0 g.1
Runs l (g ∷ h ∷ gs) =
    (g.0 ≡ l) × Linked g.0 g.1 × (joins (last_of g.0 g.1) h.0 ≡ false) × Runs h.0 (h ∷ gs)

collect-flatten :
    (first : Leg) (middle : List Leg) (prev : Leg) (ls : List Leg)
    → flatten (collect first middle prev ls) ≡ first ∷ (middle ++ ls)
unfolding collect
collect-flatten first middle prev [] = refl
collect-flatten first middle prev (l ∷ ls) = elim (Bool-cases (joins prev l)) [
  | inl e ↦ rw e (
      collect-flatten first (middle ++ (l ∷ [])) l ls
      ∙ ap (λ m. first ∷ m) (append_assoc middle (l ∷ []) ls))
  | inr e ↦ rw e (ap (λ m. (first ∷ middle) ++ m) (collect-flatten l [] l ls))
]

last_of-append : (p : Leg) (ls : List Leg) (l : Leg) → last_of p (ls ++ (l ∷ [])) ≡ l
unfolding last_of
last_of-append p [] l = refl
last_of-append p (m ∷ ms) l = last_of-append m ms l

Linked-append :
    (p : Leg) (ls : List Leg) (l : Leg)
    → Linked p ls
    → joins (last_of p ls) l ≡ true
    → Linked p (ls ++ (l ∷ []))
unfolding last_of
Linked-append p [] l h j = (j, tt)
Linked-append p (m ∷ ms) l h j = (h.0, Linked-append m ms l h.1 j)

close_run :
    (first : Leg) (middle : List Leg) (l : Leg) (gs : List Group)
    → Linked first middle
    → joins (last_of first middle) l ≡ false
    → Runs l gs
    → Runs first ((first, middle) ∷ gs)
close_run first middle l [] linked apart h = absurd h
close_run first middle l (g ∷ []) linked apart h =
    let apart' = subst (λ x. joins (last_of first middle) x ≡ false) (sym h.0) apart in
    (refl, linked, apart', (refl, h.1))
close_run first middle l (g ∷ k ∷ gs) linked apart h =
    let apart' = subst (λ x. joins (last_of first middle) x ≡ false) (sym h.0) apart in
    (refl, linked, apart', (refl, h.1, h.2, h.3))

collect-Runs :
    (first : Leg) (middle : List Leg) (prev : Leg) (ls : List Leg)
    → Linked first middle
    → last_of first middle ≡ prev
    → Runs first (collect first middle prev ls)
unfolding collect last_of
collect-Runs first middle prev [] linked last = (refl, linked)
collect-Runs first middle prev (l ∷ ls) linked last = elim (Bool-cases (joins prev l)) [
  | inl e ↦
      let e' = subst (λ x. joins x l ≡ true) (sym last) e in
      rw e (
        collect-Runs first (middle ++ (l ∷ [])) l ls (Linked-append first middle l linked e')
          (last_of-append first middle l))
  | inr e ↦
      let e' = subst (λ x. joins x l ≡ false) (sym last) e in
      rw e (close_run first middle l (collect l [] l ls) linked e' (collect-Runs l [] l ls tt refl))
]

-- The groups of a list of legs are the whole list in its order, split where, and only where, a leg
-- does not join the one before it.
abbrev pub IsSplit : List Leg → List Group → Type 0
IsSplit [] gs = gs ≡ []
IsSplit (l ∷ ls) gs = (flatten gs ≡ l ∷ ls) × Runs l gs

groups_of-IsSplit : (ls : List Leg) → IsSplit ls (groups_of ls)
unfolding groups_of last_of
groups_of-IsSplit [] = refl
groups_of-IsSplit (l ∷ ls) = (collect-flatten l [] l ls, collect-Runs l [] l ls tt refl)

-- The table shows, newest first, one row for each group of the trades in the order of time, where
-- the groups are the runs in which each leg is on the exchange of the one before it and at most ten
-- seconds later: no trade is lost or shown twice, and neighbours are apart only where they must be.
pub decorate_trades-IsSplit :
    (pick : List String → String) (rows : List Leg)
    → (gs : List Group) × (decorate_trades pick rows ≡ reverse (map (close_group pick) gs))
      × IsSplit (sort not_later rows) gs
unfolding decorate_trades
decorate_trades-IsSplit pick rows =
    (groups_of (sort not_later rows), refl, groups_of-IsSplit (sort not_later rows))
