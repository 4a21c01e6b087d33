-- ===== src/Users/Paging.antt =====
-- The cursor over the users ends, and yields each row that its filter takes once.
use uam_backend.Prelude.{
  Text, Bool, ℕ, ◌≡◌, List, true, All, Option, ◌∷◌, false, ◌++◌, if◌then◌else◌, arith, some, drop,
  ◌&&◌, ap, suc, [], zero, refl, none, length, ◌<◌, sym, ◌∙◌, length-drop, ◌≤◌,
}
use uam_backend.Users.Cursor.{rows_after, limit_to, last_id, is_after, cursor, user_cursor}

-- The laws of the order that the database has on identifiers.
pub record IsStrictOrder (less : Text → Text → Bool) : Type 0 where
  pub trans : (a b c : Text) → less a b ≡ true → less b c ≡ true → less a c ≡ true
  pub asym : (a b : Text) → less a b ≡ true → less b a ≡ false
  pub irrefl : (a : Text) → less a a ≡ false

module _ {ℓ} {R : Type ℓ} where
  limit_to-drop : (n : ℕ) (xs : List (Text × R)) → limit_to n xs ++ drop n xs ≡ xs
  limit_to-drop zero xs = refl
  limit_to-drop (suc n) [] = refl
  limit_to-drop (suc n) (x ∷ xs) = ap (λ l. x ∷ l) (limit_to-drop n xs)

  All-last_id :
      (P : Text → Type 0) (id : Text) (r : R) (n : ℕ) (xs : List (Text × R))
      → All (λ x. P x.0) ((id, r) ∷ xs)
      → P (last_id id (limit_to n xs))
  All-last_id P id r zero xs h = h.0
  All-last_id P id r (suc n) [] h = h.0
  All-last_id P id r (suc n) ((id', r') ∷ xs) h = All-last_id P id' r' n xs h.1

module _ {ℓ} {R : Type ℓ} (less : Text → Text → Bool) (order : IsStrictOrder less) where
  -- Each row's identifier stands before those of the rows after it.
  abbrev pub Ascending : List (Text × R) → Type 0
  Ascending [] = Unit
  Ascending ((id, r) ∷ rows) = All (λ x. less id x.0 ≡ true) rows × Ascending rows

  All-rows_after :
      (P : Text → Type 0) (matches : R → Bool) (last : Option Text) (rows : List (Text × R))
      → All (λ x. P x.0) rows
      → All (λ x. P x.0) (rows_after less matches last rows)
  unfolding rows_after
  All-rows_after P matches last [] h = tt
  All-rows_after P matches last ((id, r) ∷ rows) h =
      if-All (matches r && is_after less last id) (All-rows_after P matches last rows h.1)
    where
      if-All :
          (b : Bool)
          → All (λ x. P x.0) (rows_after less matches last rows)
          → All
              (λ x. P x.0)
              (if b
                then (id, r) ∷ rows_after less matches last rows
                else rows_after less matches last rows)
      if-All true k = (h.0, k)
      if-All false k = k

  Ascending-rows_after :
      (matches : R → Bool) (last : Option Text) (rows : List (Text × R))
      → Ascending rows
      → Ascending (rows_after less matches last rows)
  unfolding rows_after
  Ascending-rows_after matches last [] h = tt
  Ascending-rows_after matches last ((id, r) ∷ rows) h = ground (
    arith,
    All-rows_after (λ k. less id k ≡ true) matches last rows h.0,
    Ascending-rows_after matches last rows h.1,
  )

  -- The rows after an identifier are among those after an earlier one.
  rows_after-rows_after :
      (matches : R → Bool) (last : Option Text) (k : Text) (rows : List (Text × R))
      → is_after less last k ≡ true
      → rows_after less (λ r. true) (some k) (rows_after less matches last rows)
        ≡ rows_after less matches (some k) rows
  unfolding rows_after
  rows_after-rows_after matches last k [] h = refl
  rows_after-rows_after matches none k ((id, r) ∷ rows) h =
      ground (arith, rows_after-rows_after matches none k rows h)
  rows_after-rows_after matches (some l) k ((id, r) ∷ rows) h =
      ground (arith, rows_after-rows_after matches (some l) k rows h, order.trans l k id h)

  rows_after-All :
      (k : Text) (rows : List (Text × R))
      → All (λ x. less k x.0 ≡ true) rows
      → rows_after less (λ r. true) (some k) rows ≡ rows
  unfolding rows_after
  rows_after-All k [] h = refl
  rows_after-All k ((id, r) ∷ rows) h = rw (h.0) (ap (λ l. (id, r) ∷ l) (rows_after-All k rows h.1))

  rows_after_page :
      (n : ℕ) (id : Text) (r : R) (xs : List (Text × R))
      → Ascending ((id, r) ∷ xs)
      → rows_after less (λ r. true) (some (last_id id (limit_to n xs))) ((id, r) ∷ xs) ≡ drop n xs
  unfolding rows_after
  rows_after_page zero id r xs h = rw (order.irrefl id) (rows_after-All id xs h.0)
  rows_after_page (suc n) id r [] h = rw (order.irrefl id) refl
  rows_after_page (suc n) id r ((id', r') ∷ xs) h =
      rw
        (order.asym id (last_id id' (limit_to n xs))
          (All-last_id (λ k. less id k ≡ true) id' r' n xs h.0))
        (rows_after_page n id' r' xs h.1)

  All-is_after :
      (matches : R → Bool) (last : Option Text) (rows : List (Text × R))
      → All (λ x. is_after less last x.0 ≡ true) (rows_after less matches last rows)
  unfolding rows_after
  All-is_after matches last [] = tt
  All-is_after matches last ((id, r) ∷ rows) = ground (arith, All-is_after matches last rows)

  cursor-from :
      (fuel n : ℕ) (matches : R → Bool) (last : Option Text) (rows xs : List (Text × R))
      → Ascending rows
      → rows_after less matches last rows ≡ xs
      → length xs < fuel
      → cursor less fuel (suc n) matches last rows ≡ some xs
  unfolding cursor
  cursor-from zero n matches last rows xs a e l = ground (arith, l)
  cursor-from (suc fuel) n matches last rows [] a e l = rw (e, cursor) refl
  cursor-from (suc fuel) n matches last rows ((id, r) ∷ ys) a e l =
      let k = last_id id (limit_to n ys) in
      let after : is_after less last k ≡ true =
        All-last_id (λ j. is_after less last j ≡ true) id r n ys
          (rw e at (All-is_after matches last rows)) in
      let rest : rows_after less matches (some k) rows ≡ drop n ys =
        sym (rows_after-rows_after matches last k rows after)
        ∙ ap (rows_after less (λ r. true) (some k)) e
        ∙ rows_after_page n id r ys (rw e at (Ascending-rows_after matches last rows a)) in
      rw (e, cursor)
        (rw
          (cursor-from fuel n matches (some k) rows (drop n ys) a rest
            (omega (arith, l, length-drop n ys)))
          (ap (λ zs. some ((id, r) ∷ zs)) (limit_to-drop n ys)))

length-rows_after {ℓ} :
    {R : Type ℓ} (less : Text → Text → Bool) (matches : R → Bool) (last : Option Text)
    (rows : List (Text × R))
    → length (rows_after less matches last rows) ≤ length rows
unfolding rows_after
length-rows_after less matches last [] = omega arith
length-rows_after less matches last ((id, r) ∷ rows) =
    ground (arith, length-rows_after less matches last rows)

-- With an order that obeys its laws and a table listed in that order, with more fuel than the table
-- has rows, the cursor ends and yields exactly the rows that its filter takes, each once and in
-- order.
pub user_cursor_complete {ℓ} :
    {R : Type ℓ} (less : Text → Text → Bool) (order : IsStrictOrder less) (fuel : ℕ)
    (matches : R → Bool) (rows : List (Text × R))
    → Ascending less order rows
    → length rows < fuel
    → user_cursor less fuel matches rows ≡ some (rows_after less matches none rows)
unfolding user_cursor
user_cursor_complete less order fuel matches rows a l =
    cursor-from less order fuel 499 matches none rows (rows_after less matches none rows) a refl
      (omega (arith, l, length-rows_after less matches none rows))
