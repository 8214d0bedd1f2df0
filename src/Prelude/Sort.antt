-- ===== src/Prelude/Sort.antt =====
-- Python's stable `list.sort`, as an insertion sort by a key test. `before x y` says that x may
-- stand in front of y: with `key x <= key y` elements of equal keys keep their order.
use mathlib.Core.List.Perm
use mathlib.Core.List.{Perm}
use bitcoiners_dca.Prelude.{
  ◌≡◌, ◌⊎◌, Any, inl, inr, Bool, true, false, List, [], ◌∷◌, All, All-imp, if◌then◌else◌, arith,
  Bool-cases,
}

module _ {ℓ} {A : Type ℓ} (before : A → A → Bool) where
  unfoldable pub insert : A → List A → List A
  insert x [] = x ∷ []
  insert x (y ∷ ys) = if before x y then x ∷ y ∷ ys else y ∷ insert x ys

  unfoldable pub sort : List A → List A
  unfolding insert
  sort [] = []
  sort (x ∷ xs) = insert x (sort xs)

  -- Each element may stand in front of all that follow it.
  abbrev pub IsSorted : List A → Type 0
  IsSorted [] = Unit
  IsSorted (x ∷ xs) = All (λ y. before x y ≡ true) xs × IsSorted xs

  insert-All {κ} : (P : A → Type κ) (x : A) (xs : List A) → P x → All P xs → All P (insert x xs)
  unfolding insert
  insert-All P x [] p h = (p, tt)
  insert-All P x (y ∷ ys) p h = elim (Bool-cases (before x y)) [
    | inl e ↦ rw e (p, h)
    | inr e ↦ rw e (h.0, insert-All P x ys p h.1)
  ]

  pub sort-All {κ} : (P : A → Type κ) (xs : List A) → All P xs → All P (sort xs)
  unfolding sort
  sort-All P [] h = tt
  sort-All P (x ∷ xs) h = insert-All P x (sort xs) h.0 (sort-All P xs h.1)

  All-insert {κ} : (P : A → Type κ) (x : A) (xs : List A) → All P (insert x xs) → P x × All P xs
  unfolding insert
  All-insert P x [] h = (h.0, tt)
  All-insert P x (y ∷ ys) h = elim (Bool-cases (before x y)) [
    | inl e ↦ let h' : All P (x ∷ y ∷ ys) = rw e at h in (h'.0, h'.1)
    | inr e ↦
        let h' : All P (y ∷ insert x ys) = rw e at h in
        let (p, q) = All-insert P x ys h'.1 in (p, (h'.0, q))
  ]

  pub All-sort {κ} : (P : A → Type κ) (xs : List A) → All P (sort xs) → All P xs
  unfolding sort
  All-sort P [] h = tt
  All-sort P (x ∷ xs) h = let (p, q) = All-insert P x (sort xs) h in (p, All-sort P xs q)

  insert-Any : (P : A → Type 0) (x : A) (xs : List A) → Any P (insert x xs) → P x ⊎ Any P xs
  unfolding insert
  insert-Any P x [] h = h
  insert-Any P x (y ∷ ys) h = elim (Bool-cases (before x y)) [
    | inl e ↦ rw e at h
    | inr e ↦
        let h' : Any P (y ∷ insert x ys) = rw e at h in
        elim h' [
          | inl p ↦ inr (inl p)
          | inr q ↦ elim (insert-Any P x ys q) [ inl p ↦ inl p | inr r ↦ inr (inr r) ]
        ]
  ]

  pub Any-sort : (P : A → Type 0) (xs : List A) → Any P (sort xs) → Any P xs
  unfolding sort
  Any-sort P [] h = h
  Any-sort P (x ∷ xs) h = elim (insert-Any P x (sort xs) h) [
    | inl p ↦ inl p
    | inr q ↦ inr (Any-sort P xs q)
  ]

  insert-ne-nil : (x : A) (xs : List A) → ¬ (insert x xs ≡ [])
  unfolding insert
  insert-ne-nil x [] h = cc
  insert-ne-nil x (y ∷ ys) h = ground arith

  pub sort-eq-nil : (xs : List A) → sort xs ≡ [] → xs ≡ []
  unfolding sort
  sort-eq-nil [] h = h
  sort-eq-nil (x ∷ xs) h = absurd (insert-ne-nil x (sort xs) h)

  insert-perm : (x : A) (xs : List A) → Perm (insert x xs) (x ∷ xs)
  unfolding insert
  insert-perm x [] = Perm.rfl
  insert-perm x (y ∷ ys) = elim (Bool-cases (before x y)) [
    | inl e ↦ rw e Perm.rfl
    | inr e ↦ rw e (Perm.trans (Perm.cons y (insert-perm x ys)) (Perm.swap x y ys))
  ]

  -- Sorting keeps every element, as often as it was there.
  pub sort-perm : (xs : List A) → Perm (sort xs) xs
  unfolding sort
  sort-perm [] = Perm.rfl
  sort-perm (x ∷ xs) = Perm.trans (insert-perm x (sort xs)) (Perm.cons x (sort-perm xs))

module _ {ℓ} {A : Type ℓ} (before : A → A → Bool)
    (total : (x y : A) → before x y ≡ false → before y x ≡ true)
    (trans : (x y z : A) → before x y ≡ true → before y z ≡ true → before x z ≡ true) where
  insert-IsSorted :
      (x : A) (xs : List A) → IsSorted before xs → IsSorted before (insert before x xs)
  unfolding insert
  insert-IsSorted x [] h = (tt, tt)
  insert-IsSorted x (y ∷ ys) h = elim (Bool-cases (before x y)) [
    | inl e ↦ rw e ((e, All-imp (λ z q. trans x y z e q) ys h.0), h)
    | inr e ↦ rw e (insert-All before _ x ys (total x y e) h.0, insert-IsSorted x ys h.1)
  ]

  -- The result is in order, where the test is total and transitive.
  pub sort-IsSorted : (xs : List A) → IsSorted before (sort before xs)
  unfolding sort
  sort-IsSorted [] = tt
  sort-IsSorted (x ∷ xs) = insert-IsSorted x (sort before xs) (sort-IsSorted xs)
