-- ===== src/Reports/Years.antt =====
-- The reports of single years, put together.
use bitcoiners_dca.Prelude.{
  ℕ, zero, suc, ◌+◌, ◌≤◌, ◌≡◌, refl, sym, ◌∙◌, ap, Bool, true, false, List, [], ◌∷◌, ◌++◌, All,
  All-imp, inl, inr, keep, keep-All, map, some, Bool-cases, arith,
}
use bitcoiners_dca.Prelude.Sort.{sort, insert, sort-All}
use bitcoiners_dca.Persistence.Totals.{stable_aed_rates}
use bitcoiners_dca.Reports.{
  ReportRow, ReportLine, line_for, in_window, earlier, selected, report_on, export_uae_tax_csv,
}

module _ {ℓ} {A : Type ℓ} (before : A → A → Bool) where
  insert-append_left :
      (x : A) (xs ys : List A)
      → All (λ y. before x y ≡ true) ys
      → insert before x (xs ++ ys) ≡ insert before x xs ++ ys
  unfolding insert
  insert-append_left x [] [] h = refl
  insert-append_left x [] (y ∷ ys) h = rw h.0 refl
  insert-append_left x (z ∷ xs) ys h = elim (Bool-cases (before x z)) [
    | inl e ↦ rw e refl
    | inr e ↦ rw e (ap (λ l. z ∷ l) (insert-append_left x xs ys h))
  ]

  insert-append_right :
      (x : A) (xs ys : List A)
      → All (λ y. before x y ≡ false) xs
      → insert before x (xs ++ ys) ≡ xs ++ insert before x ys
  unfolding insert
  insert-append_right x [] ys h = refl
  insert-append_right x (z ∷ xs) ys h = rw h.0 (ap (λ l. z ∷ l) (insert-append_right x xs ys h.1))

window-All :
    (P : ReportRow → Type 0) (a b : ℕ) (rows : List ReportRow)
    → ((r : ReportRow) → in_window a b r ≡ true → P r)
    → All P (selected a b rows)
unfolding selected
window-All P a b rows h =
    sort-All earlier P (keep (in_window a b) rows)
      (All-imp h (keep (in_window a b) rows) (keep-All (in_window a b) rows))

selected_empty : (a : ℕ) (rows : List ReportRow) → selected a a rows ≡ []
unfolding selected sort
selected_empty a [] = refl
selected_empty a (r ∷ rows) =
    let out : in_window a a r ≡ false = ground arith in rw out (selected_empty a rows)

module _ (a b c : ℕ) (ab : a ≤ b) (bc : b ≤ c) where
  -- Two windows that meet, put together.
  selected-append :
      (rows : List ReportRow) → selected a b rows ++ selected b c rows ≡ selected a c rows
  unfolding selected sort
  selected-append [] = refl
  selected-append (r ∷ rows) =
      let rest = selected-append rows in
      let t = r.row.trade.timestamp in
      elim (Bool-cases (in_window a c r)) [
        | inr out ↦
            let no_ab : in_window a b r ≡ false = ground arith in
            let no_bc : in_window b c r ≡ false = ground arith in rw (out, no_ab, no_bc) rest
        | inl within ↦ elim (Bool-cases (in_window a b r)) [
          | inl first ↦
              let no_bc : in_window b c r ≡ false = ground arith in
              rw (within, first, no_bc)
                (sym (
                    insert-append_left earlier r (selected a b rows) (selected b c rows)
                      (window-All (λ y. earlier r y ≡ true) b c rows (λ y h. ground arith)))
                  ∙ ap (insert earlier r) rest)
          | inr later ↦
              let second : in_window b c r ≡ true = ground arith in
              rw (within, later, second)
                (sym (
                    insert-append_right earlier r (selected a b rows) (selected b c rows)
                      (window-All (λ y. earlier r y ≡ false) a b rows (λ y h. ground arith)))
                  ∙ ap (insert earlier r) rest)
        ]
      ]

map-append {ℓ κ} :
    {A : Type ℓ} {B : Type κ} (f : A → B) (xs ys : List A) → map f (xs ++ ys) ≡ map f xs ++ map f ys
map-append f [] ys = refl
map-append f (x ∷ xs) ys = ap (λ l. f x ∷ l) (map-append f xs ys)

module _ (year_start : ℕ → ℕ) (ordered : (y : ℕ) → year_start y ≤ year_start (suc y)) (now : ℕ)
    (rows : List ReportRow) where
  abbrev lines_between : ℕ → ℕ → List ReportLine
  lines_between start end = (report_on start end rows).lines

  -- The tables of `n` years from the year after `y` on, one after the other.
  abbrev pub yearly_lines : ℕ → ℕ → List ReportLine
  yearly_lines y zero = []
  yearly_lines y (suc n) =
      (export_uae_tax_csv year_start now rows (some (suc y))).lines ++ yearly_lines (suc y) n

  same : (y : ℕ) → y + 0 ≡ y
  same y = omega arith

  shift : (y n : ℕ) → suc y + n ≡ y + suc n
  shift y n = omega arith

  start-le : (y n : ℕ) → year_start y ≤ year_start (y + n)
  start-le y zero = omega (arith, ap year_start (same y))
  start-le y (suc n) =
      let later = start-le (suc y) n in omega (arith, ordered y, later, ap year_start (shift y n))

  lines-append :
      (a b c : ℕ) → a ≤ b → b ≤ c → lines_between a b ++ lines_between b c ≡ lines_between a c
  unfolding report_on
  lines-append a b c ab bc =
      let line = line_for (stable_aed_rates (map (λ r. r.row) rows)) in
      sym (map-append line (selected a b rows) (selected b c rows))
      ∙ ap (map line) (selected-append a b c ab bc rows)

  -- Where years follow one another, the tables of the years in turn, one after the other, are the
  -- table of the whole time: every trade is in the table of one year, in order, with the same
  -- cells.
  pub yearly_lines_lem :
      (y n : ℕ)
      → yearly_lines y n ≡ (report_on (year_start (suc y)) (year_start (suc y + n)) rows).lines
  unfolding export_uae_tax_csv report_on
  yearly_lines_lem y zero = sym (
      ap (λ m. lines_between (year_start (suc y)) (year_start m)) (same (suc y))
      ∙ ap (map (line_for (stable_aed_rates (map (λ r. r.row) rows))))
          (selected_empty (year_start (suc y)) rows))
  yearly_lines_lem y (suc n) =
      ap (λ l. lines_between (year_start (suc y)) (year_start (suc (suc y))) ++ l)
        (yearly_lines_lem (suc y) n)
      ∙ lines-append (year_start (suc y)) (year_start (suc (suc y))) (year_start (suc (suc y) + n))
          (ordered (suc y)) (start-le (suc (suc y)) n)
      ∙ ap (λ m. lines_between (year_start (suc y)) (year_start m)) (shift (suc y) n)
