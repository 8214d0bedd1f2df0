-- ===== src/Secrets/Rotation.antt =====
-- What the store gives back: after a write, and after its key has been changed.
use bitcoiners_dca.Prelude.{
  ℕ, suc, ◌≡◌, refl, ap, sym, ◌∙◌, ◌⊎◌, inl, inr, String, true, false, Option, none, some, [], ◌∷◌,
  length, arith, Bool-cases, Option-cases, str_eq, ◌>>=◌,
}
use bitcoiners_dca.Prelude.Dict.{
  Dict, IsUnique, lookup, assign, lookup-assign, lookup-assign_other, str_eq→eq,
}
use bitcoiners_dca.Secrets.{
  Sealed, SecretStore, sealed, set, opened, get, also_rotated, with_plain, rotate_rows, finish,
  rotate_key,
}

module _ {K C : Type 0} (encrypt : K → ℕ → String → C) (decrypt : K → C → Option String)
    (decrypts : (k : K) (seed : ℕ) (v : String) → decrypt k (encrypt k seed v) ≡ some v) where
  -- A secret that is set under a name is read back as it was, it is committed, and every other
  -- secret reads as before.
  pub set-get :
      (now : ℕ) (key value : String) (s : SecretStore K C)
      → str_eq key "" ≡ false
      → (s' : SecretStore K C) × (set encrypt decrypt now key value s ≡ some s')
        × (s'.committed ≡ s'.rows)
        × (get encrypt decrypt key s' ≡ some (some value))
        × ((i : String)
            → (str_eq i key ≡ true) ⊎ (get encrypt decrypt i s' ≡ get encrypt decrypt i s))
  unfolding set get
  set-get now key value s named = rw named (
    _,
    refl,
    refl,
    rw
        (
          lookup-assign key (sealed encrypt decrypt s.fernet now value) s.rows,
          decrypts s.fernet now value,
        )
        refl,
    λ i. elim (Bool-cases (str_eq i key)) [
      | inl e ↦ inl e
      | inr e ↦ inr (ap (opened encrypt decrypt s.fernet) (lookup-assign_other key i _ s.rows e))
    ],
  )

  also_rotated-some :
      (r : Option ℕ × Dict (Sealed C)) (n : ℕ) (t : Dict (Sealed C))
      → also_rotated encrypt decrypt r ≡ (some n, t)
      → (m : ℕ) × (r ≡ (some m, t)) × (n ≡ suc m)
  also_rotated-some (none, t1) n t e = absurd (ground arith)
  also_rotated-some (some m, t1) n t e = (
    m,
    ap (λ p. (some m, p.1)) e,
    let h : some (suc m) ≡ some n = ap (λ p. p.0) e in ground arith,
  )

  -- A round of the loop that goes on has decrypted its row.
  with_plain-some :
      (new : K) (now : ℕ) (key : String) (plain : Option String) (t : Dict (Sealed C))
      (rest : Dict (Sealed C) → Option ℕ × Dict (Sealed C)) (n : ℕ) (t' : Dict (Sealed C))
      → with_plain encrypt decrypt new now key plain t rest ≡ (some n, t')
      → (v : String) × (m : ℕ) × (plain ≡ some v)
        × (rest (assign key (sealed encrypt decrypt new now v) t) ≡ (some m, t'))
        × (n ≡ suc m)
  with_plain-some new now key none t rest n t' e = absurd (ground arith)
  with_plain-some new now key (some v) t rest n t' e =
      let (m, same, count) = also_rotated-some _ n t' e in (v, m, refl, same, count)

  module _ (old new : K) (now : ℕ) where
    rotate_rows-cons :
        (key : String) (row : Sealed C) (rows t : Dict (Sealed C)) (n : ℕ) (t' : Dict (Sealed C))
        → rotate_rows encrypt decrypt old new now ((key, row) ∷ rows) t ≡ (some n, t')
        → (v : String) × (m : ℕ) × (decrypt old row.ciphertext ≡ some v)
          × (rotate_rows encrypt decrypt old new now rows
                (assign key (sealed encrypt decrypt new now v) t)
              ≡ (some m, t'))
          × (n ≡ suc m)
    unfolding rotate_rows
    rotate_rows-cons key row rows t n t' e =
        with_plain-some new now key (decrypt old row.ciphertext) t
          (λ t1. rotate_rows encrypt decrypt old new now rows t1) n t' e

    -- A key without a row left keeps its row.
    rotate_rows-missing :
        (rows t : Dict (Sealed C)) (n : ℕ) (t' : Dict (Sealed C)) (i : String)
        → rotate_rows encrypt decrypt old new now rows t ≡ (some n, t')
        → lookup i rows ≡ none
        → lookup i t' ≡ lookup i t
    unfolding rotate_rows lookup
    rotate_rows-missing [] t n t' i e absent = ap (λ p. lookup i p.1) (sym e)
    rotate_rows-missing ((key, row) ∷ rows) t n t' i e absent =
        let (v, m, plain, goes_on, count) = rotate_rows-cons key row rows t n t' e in
        elim (Bool-cases (str_eq i key)) [
          | inl same ↦ absurd (let h : some row ≡ none = rw same at absent in ground arith)
          | inr differs ↦
              rotate_rows-missing rows (assign key (sealed encrypt decrypt new now v) t) m t' i
                goes_on (rw differs at absent)
              ∙ lookup-assign_other key i (sealed encrypt decrypt new now v) t differs
        ]

    rotate_rows-opened :
        (rows t : Dict (Sealed C)) (n : ℕ) (t' : Dict (Sealed C)) (i : String) (row : Sealed C)
        → rotate_rows encrypt decrypt old new now rows t ≡ (some n, t')
        → IsUnique rows
        → lookup i rows ≡ some row
        → opened encrypt decrypt new (lookup i t') ≡ opened encrypt decrypt old (some row)
    unfolding rotate_rows lookup
    rotate_rows-opened [] t n t' i row e unique there = absurd (ground arith)
    rotate_rows-opened ((key, first) ∷ rows) t n t' i row e unique there =
        let (v, m, plain, goes_on, count) = rotate_rows-cons key first rows t n t' e in
        elim (Bool-cases (str_eq i key)) [
          | inl same ↦
              let again = sealed encrypt decrypt new now v in
              let first_is : some first ≡ some row = rw same at there in
              let kept =
                rotate_rows-missing rows (assign key again t) m t' key goes_on unique.0
                ∙ lookup-assign key again t in
              ap (λ x. opened encrypt decrypt new (lookup x t')) (str_eq→eq i key same)
              ∙ ap (opened encrypt decrypt new) kept
              ∙ ap (λ p. p >>= λ x. some (some x)) (decrypts new now v ∙ sym plain)
              ∙ ap (opened encrypt decrypt old) first_is
          | inr differs ↦
              rotate_rows-opened rows (assign key (sealed encrypt decrypt new now v) t) m t' i row
                goes_on unique.1 (rw differs at there)
        ]

    rotate_rows-count :
        (rows t : Dict (Sealed C)) (n : ℕ) (t' : Dict (Sealed C))
        → rotate_rows encrypt decrypt old new now rows t ≡ (some n, t')
        → n ≡ length rows
    unfolding rotate_rows
    rotate_rows-count [] t n t' e = let h : some 0 ≡ some n = ap (λ p. p.0) e in ground arith
    rotate_rows-count ((key, row) ∷ rows) t n t' e =
        let (v, m, plain, goes_on, count) = rotate_rows-cons key row rows t n t' e in
        count
        ∙ ap suc
            (rotate_rows-count rows (assign key (sealed encrypt decrypt new now v) t) m t' goes_on)

  finish-some :
      (new : K) (s : SecretStore K C) (r : Option ℕ × Dict (Sealed C)) (n : ℕ)
      (s' : SecretStore K C)
      → finish encrypt decrypt new s r ≡ (some n, s')
      → (t : Dict (Sealed C)) × (r ≡ (some n, t))
        × (s' ≡ record { fernet = new; rows = t; committed = t })
  finish-some new s (none, t) n s' e = absurd (ground arith)
  finish-some new s (some m, t) n s' e = (t, ap (λ p. (p.0, t)) e, ap (λ p. p.1) (sym e))

  -- When a change of the key succeeds, it has counted every secret, the new key is in use, all is
  -- committed, and every secret reads as before.
  pub rotate_key-get :
      (new : K) (now : ℕ) (s : SecretStore K C) (n : ℕ) (s' : SecretStore K C)
      → IsUnique s.rows
      → rotate_key encrypt decrypt (some new) now s ≡ (some n, s')
      → (n ≡ length s.rows)
        × (s'.fernet ≡ new)
        × (s'.committed ≡ s'.rows)
        × ((i : String) → get encrypt decrypt i s' ≡ get encrypt decrypt i s)
  unfolding rotate_key get
  rotate_key-get new now s n s' unique e =
      let (t, rotated, same) =
        finish-some new s (rotate_rows encrypt decrypt s.fernet new now s.rows s.rows) n s' e in
      (
        rotate_rows-count s.fernet new now s.rows s.rows n t rotated,
        ap (λ x. x.fernet) same,
        ap (λ x. x.committed) same ∙ sym (ap (λ x. x.rows) same),
        λ i.
            ap (λ x. opened encrypt decrypt x.fernet (lookup i x.rows)) same
            ∙ elim (Option-cases (lookup i s.rows)) [
              | inl absent ↦
                  ap (opened encrypt decrypt new) (
                    rotate_rows-missing s.fernet new now s.rows s.rows n t i rotated absent
                    ∙ absent)
                  ∙ sym (ap (opened encrypt decrypt s.fernet) absent)
              | inr (row, there) ↦
                  rotate_rows-opened s.fernet new now s.rows s.rows n t i row rotated unique there
                  ∙ sym (ap (opened encrypt decrypt s.fernet) there)
            ],
      )
