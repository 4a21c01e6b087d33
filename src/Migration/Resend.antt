-- ===== src/Migration/Resend.antt =====
-- Sending the emails of a migration again (resendMigrationEmails).
use uam_backend.Prelude.{
  none, some, true, Text, ℕ, text, Bool, ◌+◌, [], not, if◌then◌else◌, lookup, ◌||◌, ltb, to_lower,
}
use uam_backend.OneTime.Store.{World}
use uam_backend.Accounts.World.{Reply, Env, plain}
use uam_backend.Account.{Account, is_present}
use uam_backend.Migration.Start.{MigrationFresh, send_both, is_within, resend_ms}
use uam_backend.Session.{Moment}
use uam_backend.Accounts.Email.{day_ms}
use uam_backend.Accounts.Login.{Worlds, save_and_sync}
use uam_backend.Identity.Service.{find_user_id_by_primary_email}

abbrev resend_error : Reply
resend_error = plain 500 (text "Failed to resend emails")

-- No migration is pending, or its tokens have expired.
unfoldable pub has_no_pending : ℕ → Account → Bool
has_no_pending now a =
    not (is_present a.new_email_pending)
    || elim a.migration_token_expires [ none ↦ true | some t ↦ ltb t now ]

module _ (env : Env) where
  open env use {o}

  unfoldable pub resent_account : ℕ → MigrationFresh → Account → Account
  resent_account now fresh a = record a {
    current_email_token = some (o.hash fresh.current_secret);
    new_email_token = some (o.hash fresh.new_secret);
    migration_token_expires = some (now + day_ms);
    last_migration_email_sent = some now;
  }

  abbrev pending_address : Account → Text
  pending_address a = elim a.new_email_pending [ none ↦ [] | some email ↦ email ]

  unfoldable pub resend_for_account :
      World
      → Moment
      → MigrationFresh
      → Bool
      → Bool
      → Text
      → Account
      → Worlds env
      → Worlds env × Reply
  unfolding has_no_pending resent_account send_both
  resend_for_account l m fresh current_sent new_sent id a w =
      if has_no_pending m.now a
      then (w, plain 400 (text "No pending migration found"))
      else if is_within m.now resend_ms a.last_migration_email_sent
      then (w, plain 429 (text "Please wait before resending."))
      else save_and_sync env m.now id (resent_account m.now fresh a) w resend_error (λ w1.
        send_both env l fresh current_sent new_sent
          (text "Verification emails resent to both email addresses")
          (text "Failed to resend verification emails. Please try again later.")
          (is_present (
            find_user_id_by_primary_email env.digest m.now (to_lower (pending_address a)) w1.index))
          w1)

  unfoldable pub resend_migration_emails :
      World → Moment → MigrationFresh → Bool → Bool → Text → Worlds env → Worlds env × Reply
  unfolding resend_for_account
  resend_migration_emails l m fresh current_sent new_sent id w = elim (lookup id w.accounts) [
    | none ↦ (w, plain 404 (text "User not found"))
    | some a ↦ resend_for_account l m fresh current_sent new_sent id a w
  ]
