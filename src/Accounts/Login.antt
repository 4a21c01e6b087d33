-- ===== src/Accounts/Login.antt =====
-- Signing in with a password (login of src/controllers/auth.controller.ts). The count of logins and
-- the time of the last one are set on the document, which goes to the rest of the handler; only
-- `save_account` writes to the table.
use uam_backend.Prelude.{
  Text, ℕ, Option, ◌*◌, Bool, text, some, false, lookup, ◌+◌, ltb, if◌then◌else◌, to_lower, none,
  true, ◌==◌, not, ◌&&◌, leb,
}
use uam_backend.Accounts.World.{
  Reply, Env, plain, coded, Backend, signed_in, Fresh, save_account, is_text, same_provider,
}
use uam_backend.Account.{Account, local}
use uam_backend.Session.{Moment, persist_session_tokens, or_zero}
use uam_backend.Accounts.Passwords.{compare_password, verify_password, has_text}
use uam_backend.Identity.Service.{resolve_email_identity, sync_identity_indexes}

pub record Credentials : Type 0 where
  pub login_email : Text
  pub login_password : Text

abbrev pub max_daily_logins : ℕ
max_daily_logins = 100

abbrev pub grace_ms : ℕ
grace_ms = 5 * 86_400_000

abbrev pub wrong_credentials : Reply
wrong_credentials = plain 401 (text "Invalid email or password")

abbrev pub auth_failed : Reply
auth_failed = coded 401 (text "Invalid email or password") (text "AUTH_FAILED")

abbrev pub login_failed : Reply
login_failed = plain 500 (text "Login failed")

-- The columns that a finalised migration sets, here and in the migration's own handlers.
unfoldable pub moved_account : ℕ → Text → Account → Account
moved_account now new_email a = record a {
  previous_email = some a.email;
  email = new_email;
  migration_expiry = some (now + grace_ms);
  last_migration_date = some now;
  is_email_verified = true;
  new_email_pending = none;
  current_email_verified = none;
  new_email_verified = none;
  current_email_token = none;
  new_email_token = none;
}

abbrev pub is_true : Option Bool → Bool
is_true none = false
is_true (some b) = b

-- A time that is set and has passed.
abbrev pub is_past : ℕ → Option ℕ → Bool
is_past now none = false
is_past now (some t) = ltb t now

module _ (env : Env) where
  open env use {o}

  abbrev pub Worlds : Type 0
  Worlds = Backend o.redis.State

  abbrev pub version_of : Text → Worlds → ℕ
  version_of id w = elim (lookup id w.sessions.users) [
    | none ↦ 0
    | some row ↦ or_zero row.token_version
  ]

  -- persistSessionTokens with a new pair of tokens, and the version that the user has.
  unfoldable pub open_session : Moment → Fresh → Text → Worlds → Worlds
  open_session m fresh id w = record w {
    sessions =
        persist_session_tokens o w.sessions m id fresh.access_token fresh.refresh_token
          (some (version_of id w));
  }

  -- The tokens are signed for the document, and are in `fresh`; the reply shows the row, read again.
  unfoldable pub finish_login : Moment → Fresh → Text → Account → Worlds → Worlds × Reply
  unfolding open_session signed_in
  finish_login m fresh id user w = (
    open_session m fresh id w,
    elim (lookup id w.accounts) [
      | none ↦ plain 500 (text "Failed to load user data")
      | some a ↦ signed_in env.omit_refresh_in_body 200 (text "Login successful") fresh id a
    ],
  )

  abbrev last_login_day : Option ℕ → ℕ
  last_login_day none = 0
  last_login_day (some t) = env.day_of t

  unfoldable pub daily_limit_reached : ℕ → Account → Bool
  daily_limit_reached now a =
      last_login_day a.last_login == env.day_of now && leb max_daily_logins (or_zero a.login_count)

  -- The document with the login counted.
  unfoldable pub counted_login : ℕ → Account → Account
  counted_login now a = record a {
    login_count =
        some
          (if last_login_day a.last_login == env.day_of now then or_zero a.login_count + 1 else 1);
    last_login = some now;
  }

  unfoldable pub check_verified : Moment → Fresh → Text → Account → Worlds → Worlds × Reply
  unfolding finish_login daily_limit_reached counted_login
  check_verified m fresh id a w =
      if not a.is_email_verified
      then (w, auth_failed)
      else if daily_limit_reached m.now a
      then (w, plain 429 (text "Daily login limit exceeded. Please try again tomorrow."))
      else finish_login m fresh id (counted_login m.now a) w

  -- A rehash that cannot be saved is left out.
  unfoldable pub save_rehash : Text → Account → Option Text → Worlds → Worlds
  save_rehash id a password w =
      elim (save_account id (record a { password = password }) w.accounts) [
        | none ↦ w
        | some accounts ↦ record w { accounts = accounts }
      ]

  unfoldable pub check_password :
      Credentials → Moment → Fresh → Text → Account → Worlds → Worlds × Reply
  unfolding check_verified save_rehash
  check_password req m fresh id a w =
      let (is_match, password) =
        compare_password env.hashing fresh.salt req.login_password a.password in
      let rehash =
        is_match && (verify_password env.hashing req.login_password a.password).needs_rehash in
      if not is_match
      then (w, wrong_credentials)
      else check_verified m fresh id a (if rehash then save_rehash id a password w else w)

  unfoldable pub check_local :
      Credentials → Moment → Fresh → Text → Account → Worlds → Worlds × Reply
  unfolding check_password
  check_local req m fresh id a w =
      if is_text a.previous_email (to_lower req.login_email) && is_past m.now a.migration_expiry
      then (
        w,
        plain 403 (
            text
              "This email is no longer valid for this account. Please use your new email address."),
      )
      else if not (same_provider a.provider local)
      then (w, auth_failed)
      else check_password req m fresh id a w

  -- Saves an account and syncs its identities; what follows runs if both succeed.
  unfoldable pub save_and_sync :
      ℕ → Text → Account → Worlds → Reply → (Worlds → Worlds × Reply) → Worlds × Reply
  save_and_sync now id a w failed next = elim (save_account id a w.accounts) [
    | none ↦ (w, failed)
    | some accounts ↦ elim (sync_identity_indexes env.digest id a now w.index) [
      | none ↦ (record w { accounts = accounts }, failed)
      | some index ↦ next (record w { accounts = accounts; index = index })
    ]
  ]

  -- A user who signs in with the new email of a migration has it finalised on the way, if both
  -- emails have been verified.
  unfoldable pub check_pending :
      Credentials → Moment → Fresh → Text → Account → Worlds → Worlds × Reply
  unfolding check_local save_and_sync moved_account
  check_pending req m fresh id a w =
      let lower_email = to_lower req.login_email in
      if not (is_text a.new_email_pending lower_email)
      then check_local req m fresh id a w
      else if not (is_true a.current_email_verified && is_true a.new_email_verified)
      then (
        w,
        plain 403 (text "Please verify both email addresses before logging in with the new email."),
      )
      else if not (has_text lower_email)
      then (w, plain 500 (text "Migration state invalid"))
      else let moved = moved_account m.now lower_email a in
        save_and_sync m.now id moved w login_failed (check_local req m fresh id moved)

  unfoldable pub login : Credentials → Moment → Fresh → Worlds → Worlds × Reply
  unfolding check_pending
  login req m fresh w =
      elim (resolve_email_identity env.digest m.now (to_lower req.login_email) w.index) [
        | none ↦ (w, wrong_credentials)
        | some resolved ↦ elim (lookup resolved.resolved_user w.accounts) [
          | none ↦ (w, wrong_credentials)
          | some a ↦ check_pending req m fresh resolved.resolved_user a w
        ]
      ]
