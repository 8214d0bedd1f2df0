-- ===== src/Prelude/Keep.antt =====
-- Elements kept of a list by two tests, and of a list in parts.
use bitcoiners_dca.Prelude.{
  ◌≡◌, refl, sym, ◌∙◌, ap, inl, inr, Bool, true, false, List, [], ◌∷◌, ◌++◌, keep, Bool-cases,
}

module _ {A : Type 0} (p q : A → Bool) where
  pub keep-keep :
      ((x : A) → q x ≡ true → p x ≡ true) → (xs : List A) → keep q (keep p xs) ≡ keep q xs
  keep-keep narrow [] = refl
  keep-keep narrow (x ∷ xs) = elim (Bool-cases (p x)) [
    | inl kept ↦ elim (Bool-cases (q x)) [
      | inl kept' ↦ rw (kept, kept') (ap (λ ys. x ∷ ys) (keep-keep narrow xs))
      | inr gone ↦ rw (kept, gone) (keep-keep narrow xs)
    ]
    | inr gone ↦ elim (Bool-cases (q x)) [
      | inl kept ↦ absurd (let e : true ≡ false = sym (narrow x kept) ∙ gone in cc)
      | inr gone' ↦ rw (gone, gone') (keep-keep narrow xs)
    ]
  ]

  pub keep_comm : (xs : List A) → keep p (keep q xs) ≡ keep q (keep p xs)
  keep_comm [] = refl
  keep_comm (x ∷ xs) = elim (Bool-cases (p x)) [
    | inl kept ↦ elim (Bool-cases (q x)) [
      | inl kept' ↦ rw (kept, kept', kept) (ap (λ ys. x ∷ ys) (keep_comm xs))
      | inr gone ↦ rw (kept, gone) (keep_comm xs)
    ]
    | inr gone ↦ elim (Bool-cases (q x)) [
      | inl kept ↦ rw (gone, kept, gone) (keep_comm xs)
      | inr gone' ↦ rw (gone, gone') (keep_comm xs)
    ]
  ]

module _ {A : Type 0} (p : A → Bool) where
  pub keep-append : (xs ys : List A) → keep p (xs ++ ys) ≡ keep p xs ++ keep p ys
  keep-append [] ys = refl
  keep-append (x ∷ xs) ys = elim (Bool-cases (p x)) [
    | inl kept ↦ rw kept (ap (λ zs. x ∷ zs) (keep-append xs ys))
    | inr gone ↦ rw gone (keep-append xs ys)
  ]

  pub keep-without :
      (xs ys : List A) (x : A) → p x ≡ false → keep p (xs ++ x ∷ ys) ≡ keep p (xs ++ ys)
  keep-without [] ys x gone = rw gone refl
  keep-without (z ∷ xs) ys x gone = elim (Bool-cases (p z)) [
    | inl kept ↦ rw kept (ap (λ zs. z ∷ zs) (keep-without xs ys x gone))
    | inr gone' ↦ rw gone' (keep-without xs ys x gone)
  ]
