-- ===== src/Store/Rows.antt =====
-- The statements of SQL that the methods use, on one table whose primary key is a text.
use noble_cascade.Prelude.{
  List, Option, String, [], arith, eq_iff, false, if◌then◌else◌, keep, none, not, refl, some, ◌++◌,
  ◌==◌, ◌∷◌, ◌≡◌,
}

module _ {ℓ} {A : Type ℓ} (key : A → String) where
  -- SELECT … WHERE key = k
  unfoldable pub find_row : String → List A → Option A
  find_row k [] = none
  find_row k (r ∷ rs) = if key r == k then some r else find_row k rs

  -- UPDATE … SET data = row WHERE key = k
  unfoldable pub update_row : String → A → List A → List A
  update_row k row [] = []
  update_row k row (r ∷ rs) = (if key r == k then row else r) ∷ update_row k row rs

  -- INSERT: none if the key is taken, which raises IntegrityError
  unfoldable pub insert_row : A → List A → Option (List A)
  unfolding find_row
  insert_row row rs = elim (find_row (key row) rs) [ none ↦ some (rs ++ row ∷ []) | some _ ↦ none ]

  -- DELETE … WHERE key = k
  unfoldable pub delete_rows : String → List A → List A
  unfolding keep
  delete_rows k = keep (λ r. not (key r == k))

  -- INSERT OR REPLACE: the new row gets a new rowid
  unfoldable pub replace_row : A → List A → List A
  unfolding delete_rows
  replace_row row rs = delete_rows (key row) rs ++ row ∷ []

  pub find_row-append :
      (k : String) (row : A) (rs : List A)
      → find_row k (rs ++ row ∷ []) ≡ elim (find_row k rs) [
        | none ↦ (if key row == k then some row else none)
        | some r ↦ some r
      ]
  unfolding find_row
  find_row-append k row [] = refl
  find_row-append k row (r ∷ rs) = ground (arith, find_row-append k row rs)

  pub find_row-update_self :
      (k : String) (row old : A) (rs : List A)
      → find_row k rs ≡ some old
      → key row ≡ k
      → find_row k (update_row k row rs) ≡ some row
  unfolding find_row update_row
  find_row-update_self k row old [] h e = cc
  find_row-update_self k row old (r ∷ rs) h e =
      ground (arith, find_row-update_self k row old rs, eq_iff (key row) k)

  pub find_row-update_ne :
      (k j : String) (row : A) (rs : List A)
      → key row ≡ k
      → (k == j) ≡ false
      → find_row j (update_row k row rs) ≡ find_row j rs
  unfolding find_row update_row
  find_row-update_ne k j row [] e n = refl
  find_row-update_ne k j row (r ∷ rs) e n = ground (
    arith,
    find_row-update_ne k j row rs,
    eq_iff (key r) k,
    eq_iff (key r) j,
    eq_iff k j,
    eq_iff (key row) j,
  )

  pub find_row-key : (k : String) (r : A) (rs : List A) → find_row k rs ≡ some r → key r ≡ k
  unfolding find_row
  find_row-key k r [] h = cc
  find_row-key k r (x ∷ rs) h = ground (arith, find_row-key k r rs, eq_iff (key x) k)
