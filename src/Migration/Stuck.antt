-- ===== src/Migration/Stuck.antt =====
-- When a migration can be started, and what is left of one whose tokens have expired.
use uam_backend.Prelude.{some, true, false, Text, ◌≡◌, text, ℕ, lookup, ◌<◌, ◌&&◌, arith, refl}
use uam_backend.OneTime.Store.{World}
use uam_backend.Accounts.World.{Env, Fresh, coded, plain, is_future}
use uam_backend.Session.{Moment}
use uam_backend.Migration.Start.{
  initiate_migration, MigrationFresh, initiate_for, migration_refusal, MigrationRequest,
}
use uam_backend.Migration.Resend.{resend_migration_emails, resend_for_account, has_no_pending}
use uam_backend.Account.{Account, is_present, non_empty}
use uam_backend.Accounts.Login.{Worlds, is_true}
use uam_backend.Migration.Verify.{has_current_token, has_new_token}
use uam_backend.Migration.Finalize.{finalize_migration}

expired_resend :
    (now t : ℕ) (a : Account)
    → a.migration_token_expires ≡ some t
    → t < now
    → (has_no_pending now a ≡ true) × (is_future now a.migration_token_expires ≡ false)
unfolding has_no_pending
expired_resend now t a e lt = (ground (arith, e, lt), ground (arith, e, lt))

module _ (env : Env) where
  open env use {o}

  -- The requests and readings that a started migration could be taken further by, at a time.
  abbrev pub IsStuck :
      (Text → Text)
      → World
      → Moment
      → MigrationFresh
      → Fresh
      → MigrationRequest
      → Text
      → Text
      → Account
      → Worlds env
      → Type 0
  IsStuck avatar_url l m fresh drawn req id hashed a w =
      (initiate_migration env l m fresh true true req id a w ≡ (
        w,
        coded 400 (text "You already have a pending migration. Please complete or cancel it first.")
            (text "PENDING_MIGRATION_EXISTS"),
      ))
      × (resend_migration_emails env l m fresh true true id w
          ≡ (w, plain 400 (text "No pending migration found")))
      × (has_current_token m.now hashed a ≡ false)
      × (has_new_token m.now hashed a ≡ false)
      × (finalize_migration env avatar_url m drawn id w
          ≡ (w, plain 400 (text "Both emails must be verified before finalizing migration")))

  -- Once the tokens of a pending migration have expired before both emails were verified, no
  -- request takes it further: another migration to any address is refused because this one is
  -- pending, its emails are not sent again because none is pending, no token verifies either email,
  -- and it cannot be finalised; and none of these refusals changes anything.
  pub migration-IsStuck :
      (avatar_url : Text → Text) (l : World) (m : Moment) (fresh : MigrationFresh) (drawn : Fresh)
      (req : MigrationRequest) (id hashed email : Text) (a : Account) (w : Worlds env) (t : ℕ)
      → lookup id w.accounts ≡ some a
      → is_present a.new_email_pending ≡ true
      → a.migration_token_expires ≡ some t
      → t < m.now
      → (is_true a.current_email_verified && is_true a.new_email_verified) ≡ false
      → non_empty req.requested_email ≡ some email
      → IsStuck avatar_url l m fresh drawn req id hashed a w
  unfolding initiate_migration initiate_for migration_refusal resend_migration_emails
      resend_for_account has_current_token has_new_token finalize_migration
  migration-IsStuck avatar_url l m fresh drawn req id hashed email a w t found p e lt v r =
      let (expired, past) = expired_resend m.now t a e lt in
      let refused : migration_refusal m.now a
          ≡ some (
              coded 400
                (text "You already have a pending migration. Please complete or cancel it first.")
                (text "PENDING_MIGRATION_EXISTS")) =
        rw (p, migration_refusal) refl in
      (
        rw (r, initiate_migration) (rw (refused, initiate_for) refl),
        rw (found, resend_migration_emails) (rw (expired, resend_for_account) refl),
        ground (arith, past),
        ground (arith, past),
        rw (found, finalize_migration) (rw p (rw v refl)),
      )
