-- ===== src/Accounts/Resetting.antt =====
-- What a password reset leaves of the old password, the sessions and the reset token.
use uam_backend.Prelude.{
  none, some, Text, ◌≡◌, lookup, false, ◌+◌, Bool, true, refl, ◌⊎◌, Bool-cases, inl, [],
  lookup-insert_self, inr,
}
use uam_backend.OneTime.Store.{World}
use uam_backend.Accounts.World.{Env, Fresh, save_account, find_account, clashes, Reply}
use uam_backend.Accounts.Reset.{post_reset_password, reset_for, has_reset_token}
use uam_backend.Account.{Account}
use uam_backend.Session.{Moment, contains, publish_token_version, UserRow}
use uam_backend.Accounts.Passwords.{stored_password}
use uam_backend.Accounts.Login.{Worlds, version_of}
use uam_backend.OneTime.EmailLink.{Consumed, reset_password}
use uam_backend.Accounts.Email.{consume_form}
use uam_backend.Session.Rotation.{accepts, publish-users}

module _ (env : Env) where
  open env use {o}

  -- The account that a reset saves.
  abbrev pub reset_account : Fresh → Text → Account → Account
  reset_account fresh password a = record a {
    password = stored_password env.hashing fresh.salt password;
    password_reset_token = none;
    password_reset_expires = none;
  }

  reset_found :
      (l : World) (m : Moment) (fresh : Fresh) (form_token password : Text) (w : Worlds env)
      (c : Consumed) (id : Text) (a : Account)
      → let w1 = (consume_form env l form_token reset_password w).0 in
        (consume_form env l form_token reset_password w).1 ≡ some c
        → find_account (has_reset_token env m.now (o.hash c.secret)) w1.accounts ≡ some (id, a)
        → post_reset_password env l m fresh form_token password w
          ≡ reset_for env m fresh password id a w1
  unfolding post_reset_password
  reset_found l m fresh form_token password w c id a e f = rw (e, post_reset_password) (rw f refl)

  abbrev pub published : Moment → Text → Worlds env → Bool
  published m id w = (publish_token_version o w.sessions m id (version_of env id w + 1)).1

  -- What a reset that succeeds leaves.
  abbrev pub IsReset : Worlds env → Worlds env → Reply → Text → Account → Text → Type 0
  IsReset w w' reply id changed any =
      (reply.status ≡ 200)
      × (lookup id w'.accounts ≡ some changed)
      × (accepts o w'.sessions id any ≡ false)
      × (version_of env id w' ≡ version_of env id w + 1)

  abbrev pub IsUntouched : Worlds env → Worlds env → Reply → Type 0
  IsUntouched w w' reply =
      (reply.status ≡ 503) × (w'.accounts ≡ w.accounts) × (w'.sessions.users ≡ w.sessions.users)

  reset_for_ends :
      (m : Moment) (fresh : Fresh) (password any : Text) (w : Worlds env) (id : Text)
      (a old : Account)
      → lookup id w.accounts ≡ some old
      → clashes id (reset_account fresh password a) w.accounts ≡ false
      → let (w', reply) = reset_for env m fresh password id a w in
        ((published m id w ≡ true) × IsReset w w' reply id (reset_account fresh password a) any)
        ⊎ ((published m id w ≡ false) × IsUntouched w w' reply)
  unfolding reset_for save_account contains
  reset_for_ends m fresh password any w id a old g n = elim (Bool-cases (published m id w)) [
    | inl p ↦
        let users = (publish_token_version o w.sessions m id (version_of env id w + 1)).0.users in
        let ended : UserRow = record {
          refresh_tokens = [];
          active_access_jtis = [];
          token_version = some (version_of env id w + 1);
        } in
        let stored = lookup-insert_self id ended users in
        inl (
          p,
          rw (p, reset_for)
              (rw (g, save_account)
                (rw n (
                  refl,
                  lookup-insert_self id (reset_account fresh password a) w.accounts,
                  rw (stored, accepts) refl,
                  rw (stored, version_of) refl,
                ))),
        )
    | inr p ↦ inr (
      p,
      rw (p, reset_for) (refl, refl, publish-users o w.sessions m id (version_of env id w + 1)),
    )
  ]

  -- A reset whose form token gives the secret of an account's reset token, when that has not
  -- expired, and whose new columns clash with no other account: if the next version of the user's
  -- tokens can be published, the answer has status 200, the account holds the new password and no
  -- reset token, no refresh token is accepted for the user, and the version is the next one; if it
  -- cannot, the answer has status 503, and accounts and sessions are as the reading of the form
  -- token left them.
  pub post_reset_password_ends :
      (l : World) (m : Moment) (fresh : Fresh) (form_token password any : Text) (w : Worlds env)
      (c : Consumed) (id : Text) (a old : Account)
      → let w1 = (consume_form env l form_token reset_password w).0 in
        (consume_form env l form_token reset_password w).1 ≡ some c
        → find_account (has_reset_token env m.now (o.hash c.secret)) w1.accounts ≡ some (id, a)
        → lookup id w1.accounts ≡ some old
        → clashes id (reset_account fresh password a) w1.accounts ≡ false
        → let (w', reply) = post_reset_password env l m fresh form_token password w in
          ((published m id w1 ≡ true) × IsReset w1 w' reply id (reset_account fresh password a) any)
          ⊎ ((published m id w1 ≡ false) × IsUntouched w1 w' reply)
  post_reset_password_ends l m fresh form_token password any w c id a old e f g n =
      let w1 = (consume_form env l form_token reset_password w).0 in
      rw (reset_found l m fresh form_token password w c id a e f)
        (reset_for_ends m fresh password any w1 id a old g n)
