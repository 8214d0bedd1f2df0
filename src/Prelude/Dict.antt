-- ===== src/Prelude/Dict.antt =====
-- Dicts and key-value tables: association lists with text keys.
use mathlib.Core.Path.{subst}
use bitcoiners_dca.Prelude.{
  ◌≡◌, ◌≢◌, refl, sym, ◌∙◌, ap, ◌⊎◌, inl, inr, String, true, false, Option, none, some, List, [],
  ◌∷◌, arith, if◌then◌else◌, str_eq, eq_iff, Bool-cases, some-inj,
}

pub str_eq_refl : (a : String) → str_eq a a ≡ true
str_eq_refl a = (eq_iff a a).1 refl

pub str_eq→eq : (a b : String) → str_eq a b ≡ true → a ≡ b
str_eq→eq a b e = (eq_iff a b).0 e

pub str_eq→ne : (a b : String) → str_eq a b ≡ false → a ≢ b
str_eq→ne a b e same = let h : true ≡ false = sym ((eq_iff a b).1 same) ∙ e in cc

str_eq_sym : (a b : String) → str_eq a b ≡ false → str_eq b a ≡ false
str_eq_sym a b e = elim (Bool-cases (str_eq b a)) [
  | inl same ↦ absurd (str_eq→ne a b e (sym (str_eq→eq b a same)))
  | inr differs ↦ differs
]

abbrev pub Dict {ℓ} : Type ℓ → Type ℓ
Dict V = List (String × V)

module _ {ℓ} {V : Type ℓ} where
  unfoldable pub lookup : String → Dict V → Option V
  lookup k [] = none
  lookup k ((j, v) ∷ d) = if str_eq k j then some v else lookup k d

  -- `d[k] = v`
  unfoldable pub assign : String → V → Dict V → Dict V
  assign k v [] = (k, v) ∷ []
  assign k v ((j, w) ∷ d) = if str_eq k j then (j, v) ∷ d else (j, w) ∷ assign k v d

  -- The table without the key.
  unfoldable pub erase : String → Dict V → Dict V
  erase k [] = []
  erase k ((j, w) ∷ d) = let rest = erase k d in if str_eq k j then rest else (j, w) ∷ rest

  -- No key twice, as of a Python dict or a primary key.
  abbrev pub IsUnique : Dict V → Type ℓ
  IsUnique [] = Unit
  IsUnique ((k, v) ∷ d) = (lookup k d ≡ none) × IsUnique d

  pub lookup-assign : (k : String) (v : V) (d : Dict V) → lookup k (assign k v d) ≡ some v
  unfolding lookup assign
  lookup-assign k v [] = rw (str_eq_refl k) refl
  lookup-assign k v ((j, w) ∷ d) = elim (Bool-cases (str_eq k j)) [
    | inl e ↦ rw (e, e) refl
    | inr e ↦ rw (e, e) (lookup-assign k v d)
  ]

  pub lookup-assign_other :
      (k i : String) (v : V) (d : Dict V)
      → str_eq i k ≡ false
      → lookup i (assign k v d) ≡ lookup i d
  unfolding lookup assign
  lookup-assign_other k i v [] ne = rw ne refl
  lookup-assign_other k i v ((j, w) ∷ d) ne = elim (Bool-cases (str_eq k j)) [
    | inl e ↦
        let ne' : str_eq i j ≡ false = subst (λ x. str_eq i x ≡ false) (str_eq→eq k j e) ne in
        rw (e, ne') refl
    | inr e ↦ rw e (elim (Bool-cases (str_eq i j)) [
      | inl f ↦ rw f refl
      | inr f ↦ rw f (lookup-assign_other k i v d ne)
    ])
  ]

  pub lookup-erase : (k : String) (d : Dict V) → lookup k (erase k d) ≡ none
  unfolding lookup erase
  lookup-erase k [] = refl
  lookup-erase k ((j, w) ∷ d) = elim (Bool-cases (str_eq k j)) [
    | inl e ↦ rw e (lookup-erase k d)
    | inr e ↦ rw (e, e) (lookup-erase k d)
  ]

  pub lookup-erase_other :
      (k i : String) (d : Dict V) → str_eq i k ≡ false → lookup i (erase k d) ≡ lookup i d
  unfolding lookup erase
  lookup-erase_other k i [] ne = refl
  lookup-erase_other k i ((j, w) ∷ d) ne = elim (Bool-cases (str_eq k j)) [
    | inl e ↦
        let ne' : str_eq i j ≡ false = subst (λ x. str_eq i x ≡ false) (str_eq→eq k j e) ne in
        rw (e, ne') (lookup-erase_other k i d ne)
    | inr e ↦ rw e (elim (Bool-cases (str_eq i j)) [
      | inl f ↦ rw f refl
      | inr f ↦ rw f (lookup-erase_other k i d ne)
    ])
  ]

  pub lookup-erase-some :
      (k i : String) (d : Dict V) (v : V)
      → lookup i (erase k d) ≡ some v
      → (str_eq i k ≡ false) × (lookup i d ≡ some v)
  lookup-erase-some k i d v e = elim (Bool-cases (str_eq i k)) [
    | inl same ↦
        let gone : lookup i (erase k d) ≡ none =
          ap (λ x. lookup x (erase k d)) (str_eq→eq i k same) ∙ lookup-erase k d in
        absurd (let h : none ≡ some v = sym gone ∙ e in ground arith)
    | inr ne ↦ (ne, sym (lookup-erase_other k i d ne) ∙ e)
  ]

  pub lookup-assign-some :
      (k i : String) (w : V) (d : Dict V) (v : V)
      → lookup i (assign k w d) ≡ some v
      → ((i ≡ k) × (w ≡ v)) ⊎ ((str_eq i k ≡ false) × (lookup i d ≡ some v))
  lookup-assign-some k i w d v e = elim (Bool-cases (str_eq i k)) [
    | inl same ↦
        let at_k : some w ≡ some v =
          sym (lookup-assign k w d)
          ∙ ap (λ x. lookup x (assign k w d)) (sym (str_eq→eq i k same))
          ∙ e in
        inl (str_eq→eq i k same, some-inj at_k)
    | inr ne ↦ inr (ne, sym (lookup-assign_other k i w d ne) ∙ e)
  ]

  pub assign-IsUnique : (k : String) (v : V) (d : Dict V) → IsUnique d → IsUnique (assign k v d)
  unfolding lookup assign
  assign-IsUnique k v [] unique = (refl, tt)
  assign-IsUnique k v ((j, w) ∷ d) unique = elim (Bool-cases (str_eq k j)) [
    | inl e ↦ rw e (unique.0, unique.1)
    | inr e ↦
        let apart : str_eq j k ≡ false = str_eq_sym k j e in
        rw e (lookup-assign_other k j v d apart ∙ unique.0, assign-IsUnique k v d unique.1)
  ]
