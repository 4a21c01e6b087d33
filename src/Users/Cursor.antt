-- ===== src/Users/Cursor.antt =====
-- The cursor over the users table (UserQuery.cursor of src/db/User.ts): pages of 500 rows, each
-- from the last identifier of the one before. The order that the database has on identifiers is a
-- parameter, with its laws; the table's rows are listed in that order and stay as they are while
-- the cursor runs. The loop is on fuel.
use uam_backend.Prelude.{
  Text, ℕ, Bool, List, Option, [], true, none, some, ◌∷◌, if◌then◌else◌, ◌++◌, suc, ◌&&◌, zero,
}

-- LIMIT
abbrev pub limit_to {ℓ} : {A : Type ℓ} → ℕ → List A → List A
limit_to zero xs = []
limit_to (suc n) [] = []
limit_to (suc n) (x ∷ xs) = x ∷ limit_to n xs

abbrev pub page_size : ℕ
page_size = 500

abbrev pub is_after : (Text → Text → Bool) → Option Text → Text → Bool
is_after less none id = true
is_after less (some last) id = less last id

module _ {ℓ} {R : Type ℓ} where
  abbrev pub last_id : Text → List (Text × R) → Text
  last_id id [] = id
  last_id id ((id', r) ∷ rows) = last_id id' rows

  -- An empty page ends the loop; otherwise its rows are yielded before those that follow.
  abbrev pub continue_with :
      List (Text × R) → (Text → Option (List (Text × R))) → Option (List (Text × R))
  continue_with [] next = some []
  continue_with ((id, r) ∷ page) next = elim (next (last_id id page)) [
    | none ↦ none
    | some rows ↦ some ((id, r) ∷ page ++ rows)
  ]

module _ {ℓ} {R : Type ℓ} (less : Text → Text → Bool) where
  -- The rows that the filter takes, after an identifier.
  unfoldable pub rows_after : (R → Bool) → Option Text → List (Text × R) → List (Text × R)
  rows_after matches last [] = []
  rows_after matches last ((id, r) ∷ rows) =
      let rest = rows_after matches last rows in
      if matches r && is_after less last id then (id, r) ∷ rest else rest

  -- The rows in the order in which they are yielded; `none` when the fuel is spent.
  unfoldable pub cursor :
      ℕ → ℕ → (R → Bool) → Option Text → List (Text × R) → Option (List (Text × R))
  unfolding rows_after
  cursor zero limit matches last rows = none
  cursor (suc fuel) limit matches last rows =
      continue_with (limit_to limit (rows_after matches last rows))
        (λ id. cursor fuel limit matches (some id) rows)

  unfoldable pub user_cursor : ℕ → (R → Bool) → List (Text × R) → Option (List (Text × R))
  user_cursor fuel matches rows = cursor fuel page_size matches none rows
