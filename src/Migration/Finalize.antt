-- ===== src/Migration/Finalize.antt =====
-- Finalising a migration (finalizeMigrationInternal and finalizeMigration). The reads of the bio
-- after a save, which repair what a save lost, change nothing here, since a save keeps what it is
-- given.
use uam_backend.Prelude.{
  none, some, false, Text, Option, ℕ, text, [], Bool, List, ◌∷◌, lookup, delete, ◌&&◌,
  if◌then◌else◌, insert, text_eq, ◌+◌, not, ◌==◌, to_lower, ◌||◌,
}
use uam_backend.Account.{Account, non_empty, is_present}
use uam_backend.Accounts.Login.{moved_account, Worlds, open_session, version_of, is_true}
use uam_backend.Accounts.World.{Reply, Env, plain, Fresh, signed_in, save_account, coded}
use uam_backend.Session.{Moment, or_zero}
use uam_backend.Identity.Service.{
  release_user, find_user_id_by_primary_email, sync_identity_indexes,
}
use uam_backend.Accounts.Email.{owner_account}
use uam_backend.Migration.Preserve.{apply_user_data, complete_history, extract_user_data}

-- The columns that every path sets.
unfoldable pub migrated_account : ℕ → Text → Account → Account
unfolding moved_account
migrated_account now new_email a = record (moved_account now new_email a) {
  migration_token = none;
  migration_token_expires = none;
}

unfoldable pub email_clashes : Text → Text → List (Text × Account) → Bool
email_clashes id email [] = false
email_clashes id email ((j, b) ∷ rest) =
    (not (text_eq j id) && text_eq b.email email) || email_clashes id email rest

abbrev pub concurrent : Reply
concurrent = plain 409 (text "Concurrent modification detected — please retry")

abbrev migration_failed : Reply
migration_failed = plain 500 (text "Migration failed")

abbrev no_pending : Reply
no_pending = plain 400 (text "No pending migration")

abbrev completed : Text
completed = text "Migration completed successfully"

module _ (env : Env) where
  open env use {o}

  -- $inc of the token version.
  unfoldable pub increment_version : Text → Worlds env → Worlds env
  increment_version id w = elim (lookup id w.sessions.users) [
    | none ↦ w
    | some row ↦ record w {
      sessions = record w.sessions {
        users =
            insert id (record row { token_version = some (or_zero row.token_version + 1) })
              w.sessions.users;
      };
    }
  ]

  -- findByIdAndDelete, with the identities released before.
  unfoldable pub delete_user : Text → Worlds env → Worlds env
  delete_user id w = record w {
    accounts = delete id w.accounts;
    sessions = record w.sessions { users = delete id w.sessions.users };
    index = release_user id w.index;
  }

  -- A duplicate email is met by deleting its user, for the next attempt.
  unfoldable pub recover_duplicate : ℕ → Text → Account → Worlds env → Worlds env × Reply
  unfolding delete_user email_clashes
  recover_duplicate now id a w =
      if not (email_clashes id a.email w.accounts) then (w, migration_failed) else (
        elim (owner_account env (find_user_id_by_primary_email env.digest now a.email w.index) w) [
          | none ↦ w
          | some (j, b) ↦ if text_eq j id then w else delete_user j w
        ],
        coded 500
            (text "Migration failed due to duplicate email. Please try again or contact support.")
            (text "DUPLICATE_EMAIL_ERROR"),
      )

  unfoldable pub save_or_recover :
      ℕ → Text → Account → Worlds env → (Worlds env → Worlds env × Reply) → Worlds env × Reply
  unfolding recover_duplicate
  save_or_recover now id a w next = elim (save_account id a w.accounts) [
    | none ↦ recover_duplicate now id a w
    | some accounts ↦ next (record w { accounts = accounts })
  ]

  unfoldable pub save_and_finish :
      Moment → Fresh → Text → Text → Account → Worlds env → Worlds env × Reply
  unfolding save_or_recover open_session signed_in
  save_and_finish m fresh message id final w = save_or_recover m.now id final w (λ w1.
      elim (sync_identity_indexes env.digest id final m.now w1.index) [
        | none ↦ (w1, migration_failed)
        | some index ↦ (
          open_session env m fresh id (record w1 { index = index }),
          signed_in env.omit_refresh_in_body 200 message fresh id final,
        )
      ])

  -- The update under the version that was read, then the second save, the sync and the new session.
  unfoldable pub update_and_sign_in :
      Moment → Fresh → Text → ℕ → Account → Account → Worlds env → Worlds env × Reply
  unfolding increment_version save_or_recover save_and_finish
  update_and_sign_in m fresh id version migrated final w =
      if not (version_of env id w == version)
      then (w, concurrent)
      else save_or_recover m.now id migrated w
          (λ w1. save_and_finish m fresh completed id final (increment_version id w1))

  unfoldable pub move_same_user :
      Moment → Fresh → Text → Text → Account → Worlds env → Worlds env × Reply
  unfolding migrated_account complete_history
  move_same_user m fresh id new_email a w =
      let migrated = migrated_account m.now new_email a in
      let final : Account = record migrated {
        migration_history = complete_history m.now new_email new_email a.migration_history;
      } in
      update_and_sign_in m fresh id (version_of env id w) migrated final w

module _ (env : Env) (avatar_url : Text → Text) where
  -- The account that is saved when the data is applied again and the history completed.
  unfoldable pub final_account : ℕ → Text → Account → Account
  unfolding migrated_account apply_user_data extract_user_data complete_history
  final_account now new_email a =
      record (apply_user_data avatar_url (extract_user_data a) new_email
        (migrated_account now new_email a)) {
          migration_history = complete_history now a.email new_email a.migration_history;
        }

  unfoldable pub merge_accounts :
      Moment → Fresh → Text → Text → Text → Account → Worlds env → Worlds env × Reply
  unfolding delete_user migrated_account final_account
  merge_accounts m fresh id existing new_email a w =
      update_and_sign_in env m fresh id (version_of env id w) (migrated_account m.now new_email a)
        (final_account m.now new_email a) (delete_user env existing w)

  -- With no account at the new email; the token version stays.
  unfoldable pub move_to_free :
      Moment → Fresh → Text → Text → Account → Worlds env → Worlds env × Reply
  unfolding final_account
  move_to_free m fresh id new_email a w =
      save_and_finish env m fresh
        (text "Account migrated successfully! You can login with both emails for 5 days.") id
        (final_account m.now new_email a) w

  unfoldable pub finalize_to :
      Moment
      → Fresh
      → Text
      → Text
      → Account
      → Option (Text × Account)
      → Worlds env
      → Worlds env × Reply
  unfolding merge_accounts move_same_user move_to_free
  finalize_to m fresh id new_email a none w = move_to_free m fresh id new_email a w
  finalize_to m fresh id new_email a (some (j, b)) w =
      if text_eq j id
      then move_same_user env m fresh id new_email a w
      else merge_accounts m fresh id j new_email a w

  -- The version that the request's user had is compared with the one that the table has.
  unfoldable pub finalize_migration_internal :
      Moment → Fresh → Text → ℕ → Worlds env → Worlds env × Reply
  unfolding finalize_to
  finalize_migration_internal m fresh id version w = elim (lookup id w.accounts) [
    | none ↦ (w, plain 404 (text "User not found"))
    | some a ↦
        if not (version_of env id w == version)
        then (w, concurrent)
        else elim (non_empty a.new_email_pending) [
          | none ↦ (w, no_pending)
          | some pending_email ↦
              let new_email = to_lower pending_email in
              finalize_to m fresh id new_email a
                (owner_account env
                  (find_user_id_by_primary_email env.digest m.now new_email w.index) w)
                w
        ]
  ]

  unfoldable pub finalize_migration : Moment → Fresh → Text → Worlds env → Worlds env × Reply
  unfolding finalize_migration_internal
  finalize_migration m fresh id w = elim (lookup id w.accounts) [
    | none ↦ (w, plain 404 (text "User not found"))
    | some a ↦
        if not (is_present a.new_email_pending)
        then (w, plain 400 (text "No pending migration found"))
        else if not (is_true a.current_email_verified && is_true a.new_email_verified)
        then (w, plain 400 (text "Both emails must be verified before finalizing migration"))
        else finalize_migration_internal m fresh id (version_of env id w) w
  ]
