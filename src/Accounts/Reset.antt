-- ===== src/Accounts/Reset.antt =====
-- Resetting a password (requestPasswordReset and resetPassword of
-- src/controllers/auth.controller.ts).
use uam_backend.Prelude.{
  none, some, Text, ℕ, Bool, text, some, ◌+◌, ◌&&◌, if◌then◌else◌, to_lower, List, not, lookup, [],
  ◌++◌, insert,
}
use uam_backend.OneTime.Store.{World}
use uam_backend.Accounts.World.{
  Env, Reply, Fresh, plain, is_text, is_future, same_provider, save_account, find_account,
}
use uam_backend.Session.{Moment, publish_token_version, UserRow, revocable}
use uam_backend.Accounts.Email.{send_link, consume_form, owner_account}
use uam_backend.Account.{Account, local}
use uam_backend.Accounts.Login.{Worlds, version_of}
use uam_backend.OneTime.EmailLink.{reset_password}
use uam_backend.Identity.Service.{find_user_id_by_primary_email}
use uam_backend.Accounts.Passwords.{stored_password}

module _ (env : Env) where
  open env use {o}

  unfoldable pub reset_for :
      Moment → Fresh → Text → Text → Account → Worlds env → Worlds env × Reply
  reset_for m fresh password id a w =
      let version = version_of env id w + 1 in
      let (sessions, published) = publish_token_version o w.sessions m id version in
      let jtis : List Text = elim (lookup id w.sessions.users) [
        | none ↦ []
        | some row ↦ row.active_access_jtis
      ] in
      let changed : Account = record a {
        password = stored_password env.hashing fresh.salt password;
        password_reset_token = none;
        password_reset_expires = none;
      } in
      let ended : UserRow = record {
        refresh_tokens = [];
        active_access_jtis = [];
        token_version = some version;
      } in
      if not published
      then (
        record w { sessions = sessions },
        plain 503 (text "Password reset could not invalidate active sessions. Please try again."),
      )
      else elim (save_account id changed w.accounts) [
        | none ↦ (
          record w {
            sessions = record sessions { revoked = sessions.revoked ++ revocable o jtis };
          },
          plain 500 (text "Password reset failed"),
        )
        | some accounts ↦ (
          record w {
            accounts = accounts;
            sessions = record sessions {
              users = insert id ended sessions.users;
              revoked = sessions.revoked ++ revocable o jtis;
            };
          },
          plain 200 (text "Password reset successfully"),
        )
      ]

  unfoldable pub has_reset_token : ℕ → Text → Account → Bool
  has_reset_token now hashed a =
      is_text a.password_reset_token hashed && is_future now a.password_reset_expires

  unfoldable pub post_reset_password :
      World → Moment → Fresh → Text → Text → Worlds env → Worlds env × Reply
  unfolding reset_for has_reset_token
  post_reset_password l m fresh form_token password w =
      let (w1, redeemed) = consume_form env l form_token reset_password w in
      elim redeemed [
        | none ↦ (w1, plain 400 (text "Invalid or expired reset session"))
        | some consumed ↦
            elim (find_account (has_reset_token m.now (o.hash consumed.secret)) w1.accounts) [
              | none ↦ (w1, plain 400 (text "Invalid or expired reset token"))
              | some (id, a) ↦ reset_for m fresh password id a w1
            ]
      ]

  abbrev reset_requested : Reply
  reset_requested = plain 200 (text "If the email exists, a reset link has been sent")

  unfoldable pub request_reset_for :
      World → Moment → Fresh → Text → Account → Worlds env → Worlds env × Reply
  unfolding send_link
  request_reset_for l m fresh id a w =
      let changed : Account = record a {
        password_reset_token = some (o.hash fresh.secret);
        password_reset_expires = some (m.now + 3_600_000);
      } in
      if not (same_provider a.provider local)
      then (w, reset_requested)
      else elim (save_account id changed w.accounts) [
        | none ↦ (w, plain 500 (text "Password reset request failed"))
        | some accounts ↦ (
          send_link env l fresh reset_password (record w { accounts = accounts }),
          reset_requested,
        )
      ]

  unfoldable pub request_password_reset :
      World → Moment → Fresh → Text → Worlds env → Worlds env × Reply
  unfolding request_reset_for
  request_password_reset l m fresh email w =
      elim (owner_account env
        (find_user_id_by_primary_email env.digest m.now (to_lower email) w.index) w) [
          | none ↦ (w, reset_requested)
          | some (id, a) ↦ request_reset_for l m fresh id a w
        ]
