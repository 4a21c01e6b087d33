-- ===== src/Accounts/Profile.antt =====
-- The profile route (src/controllers/profile.controller.ts: updateBio). The row of the request's
-- user is read again, by the identifier, the email or the previous email.
use uam_backend.Prelude.{
  none, some, false, Text, List, Option, Bool, if◌then◌else◌, text_eq, ltb, ◌∷◌, [], ◌||◌, text,
  ◌≢◌, ◌≡◌, lookup, text_eq_refl, insert, refl, arith, text_eq_iff, ◌∙◌, ap, ℕ, ◌+◌,
}
use uam_backend.Accounts.Saving.{save_account_ok}
use uam_backend.Account.{Account, non_empty}
use uam_backend.Accounts.World.{Reply, plain, is_text, save_account, public_user, clashes}

-- The filter of updateBio.
unfoldable pub is_of_user : Text → Text → Text → Account → Bool
is_of_user id email j b = text_eq j id || (text_eq b.email email || is_text b.previous_email email)

-- findOne: the first row that the filter takes.
unfoldable pub find_of_user : Text → Text → List (Text × Account) → Option (Text × Account)
unfolding is_of_user
find_of_user id email [] = none
find_of_user id email ((j, b) ∷ rest) =
    let found = find_of_user id email rest in if is_of_user id email j b then some (j, b) else found

-- The UTF-16 units of a text of code points, which `length` counts in the source.
unfoldable pub utf16_length : Text → ℕ
utf16_length [] = 0
utf16_length (c ∷ cs) = (if ltb c 0x10000 then 1 else 2) + utf16_length cs

unfoldable pub is_long : Option Text → Bool
unfolding utf16_length
is_long none = false
is_long (some t) = ltb 500 (utf16_length t)

unfoldable pub update_bio :
    Text → Text → Option Text → List (Text × Account) → List (Text × Account) × Reply
unfolding is_long find_of_user save_account public_user
update_bio id email new_bio accounts =
    if is_long new_bio
    then (accounts, plain 400 (text "Bio must be 500 characters or less"))
    else elim (find_of_user id email accounts) [
      | none ↦ (accounts, plain 404 (text "User not found"))
      | some (j, b) ↦
          let b' = record b { bio = non_empty new_bio } in
          elim (save_account j b' accounts) [
            | none ↦ (accounts, plain 500 (text "Failed to update bio"))
            | some accounts' ↦ (
              accounts',
              record (plain 200 (text "Bio updated successfully")) {
                user = some (public_user j b');
              },
            )
          ]
    ]

-- The constraints do not read the bio.
clashes-bio :
    (j : Text) (b : Account) (bio : Option Text) (rest : List (Text × Account))
    → clashes j (record b { bio = bio }) rest ≡ clashes j b rest
unfolding clashes
clashes-bio j b bio [] = refl
clashes-bio j b bio ((i, c) ∷ rest) = rw (clashes-bio j b bio rest) refl

find_of_user-previous :
    (id email j : Text) (b : Account) (rest : List (Text × Account))
    → b.previous_email ≡ some email
    → find_of_user id email ((j, b) ∷ rest) ≡ some (j, b)
unfolding find_of_user is_of_user
find_of_user-previous id email j b rest previous = rw (previous, text_eq_refl email) (ground arith)

lookup-head :
    (j : Text) (b : Account) (rest : List (Text × Account)) → lookup j ((j, b) ∷ rest) ≡ some b
unfolding lookup
lookup-head j b rest = rw (text_eq_refl j) refl

insert-head :
    (j : Text) (b c : Account) (rest : List (Text × Account))
    → insert j c ((j, b) ∷ rest) ≡ (j, c) ∷ rest
unfolding insert
insert-head j b c rest = rw (text_eq_refl j) refl

clashes-head :
    (j : Text) (b c : Account) (rest : List (Text × Account))
    → clashes j c ((j, b) ∷ rest) ≡ clashes j c rest
unfolding clashes
clashes-head j b c rest = rw (text_eq_refl j) refl

save_account-bio :
    (j : Text) (b : Account) (bio : Option Text) (rest : List (Text × Account))
    → clashes j b rest ≡ false
    → save_account j (record b { bio = bio }) ((j, b) ∷ rest)
      ≡ some ((j, record b { bio = bio }) ∷ rest)
save_account-bio j b bio rest free =
    let b' = record b { bio = bio } in
    save_account_ok j b' b ((j, b) ∷ rest) (lookup-head j b rest)
      (clashes-head j b b' rest ∙ clashes-bio j b bio rest ∙ free)
    ∙ ap some (insert-head j b b' rest)

lookup-tail :
    (id j : Text) (b c : Account) (rest : List (Text × Account))
    → id ≢ j
    → lookup id ((j, b) ∷ rest) ≡ lookup id ((j, c) ∷ rest)
unfolding lookup
lookup-tail id j b c rest other = ground (arith, text_eq_iff j id)

-- A request of a user with the identifier `id` and the email `email`, on a table whose first row is
-- another account that had this email before it moved to its own, and that clashes with no row: a
-- bio of 500 UTF-16 units at most is written to that account, whose public columns are in the reply,
-- and the user's own account stays as it was.
pub update_bio_reaches_another :
    (id email j : Text)
    → (b : Account) → (new_bio : Option Text) → (rest : List (Text × Account)) → id ≢ j
    → b.previous_email ≡ some email
    → is_long new_bio ≡ false
    → clashes j b rest ≡ false
    → let b' = record b { bio = non_empty new_bio } in
      let (accounts', reply) = update_bio id email new_bio ((j, b) ∷ rest) in
      (reply.status ≡ 200)
      × (reply.user ≡ some (public_user j b'))
      × (lookup j accounts' ≡ some b')
      × (lookup id accounts' ≡ lookup id ((j, b) ∷ rest))
unfolding update_bio
update_bio_reaches_another id email j b new_bio rest other previous short no_clash =
    let b' = record b { bio = non_empty new_bio } in
    rw
      (
        short,
        find_of_user-previous id email j b rest previous,
        save_account-bio j b (non_empty new_bio) rest no_clash,
      )
      (refl, refl, lookup-head j b' rest, lookup-tail id j b' b rest other)
