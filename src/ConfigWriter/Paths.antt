-- ===== src/ConfigWriter/Paths.antt =====
-- What a write to one dotted path does to the others.
use mathlib.Core.Path.{subst}
use bitcoiners_dca.Prelude.{
  ◌≡◌, refl, sym, ◌∙◌, ap, ◌⊎◌, inl, inr, String, false, List, [], ◌∷◌, str_eq, Bool-cases,
}
use bitcoiners_dca.Prelude.Dict.{str_eq→eq, str_eq_refl}
use bitcoiners_dca.ConfigWriter.{
  Value, null, scalar, mapping, Items, empty, item, find, put, walk_down, child, set_dotted,
}

-- Two paths part ways: at some point both go on, under different keys.
abbrev pub Diverges : String → List String → String → List String → Type 0
Diverges k [] i is = str_eq i k ≡ false
Diverges k (j ∷ js) i [] = str_eq i k ≡ false
Diverges k (j ∷ js) i (h ∷ hs) = (str_eq i k ≡ false) ⊎ Diverges j js h hs

module _ {S : Type 0} where
  find-put : (k : String) (v : Value S) (d : Items S) → find k (put k v d) ≡ v
  unfolding find put
  find-put k v empty = rw (str_eq_refl k) refl
  find-put k v (item j w rest) = elim (Bool-cases (str_eq k j)) [
    | inl e ↦ rw (e, e) refl
    | inr e ↦ rw (e, e) (find-put k v rest)
  ]

  find-put_other :
      (k i : String) (v : Value S) (d : Items S)
      → str_eq i k ≡ false
      → find i (put k v d) ≡ find i d
  unfolding find put
  find-put_other k i v empty ne = rw ne refl
  find-put_other k i v (item j w rest) ne = elim (Bool-cases (str_eq k j)) [
    | inl e ↦
        let ne' : str_eq i j ≡ false = subst (λ x. str_eq i x ≡ false) (str_eq→eq k j e) ne in
        rw (e, ne') refl
    | inr e ↦ rw e (elim (Bool-cases (str_eq i j)) [
      | inl f ↦ rw f refl
      | inr f ↦ rw f (find-put_other k i v rest ne)
    ])
  ]

  pub set_dotted-get :
      (d : Items S) (k : String) (ks : List String) (v : Value S)
      → walk_down (mapping (set_dotted d k ks v)) (k ∷ ks) ≡ v
  unfolding set_dotted walk_down
  set_dotted-get d k [] v = find-put k v d
  set_dotted-get d k (j ∷ js) v =
      let inner = mapping (set_dotted (child (find k d)) j js v) in
      ap (λ x. walk_down x (j ∷ js)) (find-put k inner d) ∙ set_dotted-get (child (find k d)) j js v

  walk_down-child :
      (x : Value S) (h : String) (hs : List String)
      → walk_down (mapping (child x)) (h ∷ hs) ≡ walk_down x (h ∷ hs)
  unfolding walk_down find
  walk_down-child null h hs = refl
  walk_down-child (scalar s) h hs = refl
  walk_down-child (mapping d) h hs = refl

  other_key :
      (d : Items S) (k i : String) (v : Value S) (hs : List String)
      → str_eq i k ≡ false
      → walk_down (mapping (put k v d)) (i ∷ hs) ≡ walk_down (mapping d) (i ∷ hs)
  unfolding walk_down
  other_key d k i v hs ne = ap (λ x. walk_down x hs) (find-put_other k i v d ne)

  pub set_dotted-get_other :
      (d : Items S) (k : String) (ks : List String) (v : Value S) (i : String) (is : List String)
      → Diverges k ks i is
      → walk_down (mapping (set_dotted d k ks v)) (i ∷ is) ≡ walk_down (mapping d) (i ∷ is)
  unfolding set_dotted walk_down
  set_dotted-get_other d k [] v i is ne = other_key d k i v is ne
  set_dotted-get_other d k (j ∷ js) v i [] ne = other_key d k i _ [] ne
  set_dotted-get_other d k (j ∷ js) v i (h ∷ hs) apart = elim (Bool-cases (str_eq i k)) [
    | inr ne ↦ other_key d k i _ (h ∷ hs) ne
    | inl e ↦ elim apart [
      | inl ne ↦ other_key d k i _ (h ∷ hs) ne
      | inr deeper ↦
          let inner = mapping (set_dotted (child (find k d)) j js v) in
          subst
            (λ x.
              walk_down (mapping (put k inner d)) (x ∷ h ∷ hs) ≡ walk_down (mapping d) (x ∷ h ∷ hs))
            (sym (str_eq→eq i k e))
            (ap (λ x. walk_down x (h ∷ hs)) (find-put k inner d)
              ∙ set_dotted-get_other (child (find k d)) j js v h hs deeper
              ∙ walk_down-child (find k d) h hs)
    ]
  ]
