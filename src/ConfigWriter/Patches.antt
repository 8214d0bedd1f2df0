-- ===== src/ConfigWriter/Patches.antt =====
-- What a patch of the configuration reads back as.
use bitcoiners_dca.Prelude.{
  ◌≡◌, ◌≢◌, refl, sym, ◌∙◌, ap, ◌⊎◌, inl, inr, Bool, true, List, [], ◌∷◌, All, Bool-cases, arith,
}
use bitcoiners_dca.ConfigWriter.Paths.{Diverges, set_dotted-get, set_dotted-get_other}
use bitcoiners_dca.ConfigWriter.{
  Value, Items, Dotted, Outcome, saved, rejected, get_dotted, set_dotted, apply_updates, save,
  patch_and_save,
}

module _ {S : Type 0} where
  -- Writing the one path leaves the other as it is.
  abbrev pub Spares : Dotted → Dotted × Value S → Type 0
  Spares q (path, value) = Diverges path.0 path.1 q.0 q.1

  -- No later update touches the path of an earlier one.
  abbrev pub Pairwise : List (Dotted × Value S) → Type 0
  Pairwise [] = Unit
  Pairwise (u ∷ us) = All (Spares u.0) us × Pairwise us

  module _ (same : Value S → Value S → Bool) (valid : Items S → Bool) where
    apply_updates-other :
        (us : List (Dotted × Value S)) (raw : Items S) (q : Dotted)
        → All (Spares q) us
        → get_dotted (apply_updates same valid us raw).1 q ≡ get_dotted raw q
    unfolding apply_updates get_dotted
    apply_updates-other [] raw q apart = refl
    apply_updates-other ((path, value) ∷ us) raw q apart =
        elim (Bool-cases (same (get_dotted raw path) value)) [
          | inl e ↦ rw e (apply_updates-other us raw q apart.1)
          | inr e ↦ rw e (
              apply_updates-other us (set_dotted raw path.0 path.1 value) q apart.1
              ∙ set_dotted-get_other raw path.0 path.1 value q.0 q.1 apart.0)
        ]

    reads_now :
        (raw : Items S) (path : Dotted) (value : Value S)
        → same value value ≡ true
        → same (get_dotted (set_dotted raw path.0 path.1 value) path) value ≡ true
    unfolding get_dotted
    reads_now raw path value itself =
        ap (λ x. same x value) (set_dotted-get raw path.0 path.1 value) ∙ itself

    -- What the later updates make of a path that reads back.
    then_others :
        (us : List (Dotted × Value S)) (raw m : Items S) (path : Dotted) (value : Value S)
        → (apply_updates same valid us raw).1 ≡ m
        → All (Spares path) us
        → same (get_dotted raw path) value ≡ true
        → same (get_dotted m path) value ≡ true
    then_others us raw m path value h apart e =
        ap (λ x. same (get_dotted x path) value) (sym h)
        ∙ ap (λ x. same x value) (apply_updates-other us raw path apart)
        ∙ e

    apply_updates-reads :
        (us : List (Dotted × Value S)) (raw m : Items S)
        → (apply_updates same valid us raw).1 ≡ m
        → Pairwise us
        → All (λ u. same u.1 u.1 ≡ true) us
        → All (λ u. same (get_dotted m u.0) u.1 ≡ true) us
    unfolding apply_updates
    apply_updates-reads [] raw m h apart itself = tt
    apply_updates-reads ((path, value) ∷ us) raw m h apart itself =
        elim (Bool-cases (same (get_dotted raw path) value)) [
          | inl e ↦
              let h' : (apply_updates same valid us raw).1 ≡ m = rw e at h in
              let later = apply_updates-reads us raw m h' apart.1 itself.1 in
              (then_others us raw m path value h' apart.0 e, later)
          | inr e ↦
              let raw' = set_dotted raw path.0 path.1 value in
              let h' : (apply_updates same valid us raw').1 ≡ m = rw e at h in
              let now = reads_now raw path value itself.0 in
              let later = apply_updates-reads us raw' m h' apart.1 itself.1 in
              (then_others us raw' m path value h' apart.0 now, later)
        ]

    apply_updates-nothing :
        (us : List (Dotted × Value S)) (raw : Items S)
        → (apply_updates same valid us raw).0 ≡ []
        → (apply_updates same valid us raw).1 ≡ raw
    unfolding apply_updates
    apply_updates-nothing [] raw e = refl
    apply_updates-nothing ((path, value) ∷ us) raw e =
        elim (Bool-cases (same (get_dotted raw path) value)) [
          | inl kept ↦ rw kept (apply_updates-nothing us raw (rw kept at e))
          | inr changed ↦
              let raw' = set_dotted raw path.0 path.1 value in
              let h : path ∷ (apply_updates same valid us raw').0 ≡ [] = rw changed at e in
              absurd (ground arith)
        ]

    -- What saving leaves in the file.
    save-contents :
        (file : Items S) (r : List Dotted × Items S) (changed : List Dotted) (m : Items S)
        → (r.0 ≡ [] → r.1 ≡ file)
        → save same valid file r ≡ (saved changed, m)
        → r.1 ≡ m
    save-contents file ([], raw) changed m kept e = kept refl ∙ ap (λ x. x.1) e
    save-contents file (path ∷ paths, raw) changed m kept e = elim (Bool-cases (valid raw)) [
      | inl ok_now ↦
          let h : ◌≡◌ {A = Outcome × Items S} (saved (path ∷ paths), raw) (saved changed, m) =
            rw ok_now at e in
          ap (λ x. x.1) h
      | inr bad ↦
          let h : ◌≡◌ {A = Outcome × Items S} (rejected, file) (saved changed, m) = rw bad at e in
          let no : rejected ≡ saved changed = ap (λ x. x.0) h in absurd (ground arith)
    ]

    -- After a patch that is saved, whose paths part ways and whose values equal themselves, every
    -- path of the patch reads back an equal value, and a path that parts ways with all of them
    -- reads as before.
    pub patch_and_save-reads :
        (us : List (Dotted × Value S)) (file : Items S) (changed : List Dotted) (m : Items S)
        (q : Dotted)
        → patch_and_save same valid us file ≡ (saved changed, m)
        → Pairwise us
        → All (λ u. same u.1 u.1 ≡ true) us
        → All (Spares q) us
        → All (λ u. same (get_dotted m u.0) u.1 ≡ true) us × (get_dotted m q ≡ get_dotted file q)
    unfolding patch_and_save
    patch_and_save-reads us file changed m q e apart itself spared =
        let left =
          save-contents file (apply_updates same valid us file) changed m
            (apply_updates-nothing us file) e in
        (
          apply_updates-reads us file m left apart itself,
          ap (λ x. get_dotted x q) (sym left) ∙ apply_updates-other us file q spared,
        )

    save-valid :
        (file : Items S) (r : List Dotted × Items S)
        → ((save same valid file r).1 ≡ file)
          ⊎ ((valid (save same valid file r).1 ≡ true)
              × ((save same valid file r).0 ≢ rejected)
              × ((save same valid file r).0 ≢ saved []))
    save-valid file ([], raw) = inl refl
    save-valid file (path ∷ paths, raw) = elim (Bool-cases (valid raw)) [
      | inl ok_now ↦ inr (rw ok_now (ok_now, (λ e. cc), λ e. ground arith))
      | inr bad ↦ inl (rw bad refl)
    ]

    -- A patch leaves the file as it is, or it reports a changed path and leaves a valid
    -- configuration: what the schema refuses never reaches the file.
    pub patch_and_save-valid :
        (us : List (Dotted × Value S)) (file : Items S)
        → ((patch_and_save same valid us file).1 ≡ file)
          ⊎ ((valid (patch_and_save same valid us file).1 ≡ true)
              × ((patch_and_save same valid us file).0 ≢ rejected)
              × ((patch_and_save same valid us file).0 ≢ saved []))
    unfolding patch_and_save
    patch_and_save-valid us file = save-valid file (apply_updates same valid us file)
