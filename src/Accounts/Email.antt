-- ===== src/Accounts/Email.antt =====
-- What the handlers that send or take email links share (src/controllers/auth.controller.ts,
-- src/services/email.service.ts). Sending a message changes nothing here but the link's code; a
-- failure of it is swallowed.
use uam_backend.Prelude.{
  Text, ℕ, none, [], Option, false, some, if◌then◌else◌, lookup, insert, Bool, true,
}
use uam_backend.OneTime.Store.{World}
use uam_backend.Account.{Account, local}
use uam_backend.Session.{UserRow}
use uam_backend.Accounts.World.{Env, Fresh, clashes}
use uam_backend.OneTime.EmailLink.{
  EmailLinkKind, LinkPayload, Consumed, EmailStore, create_email_link_code, consume_form_token,
}
use uam_backend.Accounts.Login.{Worlds}

abbrev pub day_ms : ℕ
day_ms = 86_400_000

pub record Registration : Type 0 where
  pub new_email_address : Text
  pub new_password : Text
  pub new_display_name : Text

-- new User({ email, displayName, provider: 'local' })
abbrev pub new_account : Text → Text → Account
new_account email display_name = record {
  email = email;
  previous_email = none;
  password = none;
  display_name = display_name;
  avatar = none;
  bio = none;
  is_email_verified = false;
  login_count = none;
  last_login = none;
  email_verification_token = none;
  email_verification_expires = none;
  password_reset_token = none;
  password_reset_expires = none;
  provider = local;
  provider_id = none;
  migration_expiry = none;
  migration_token = none;
  migration_token_expires = none;
  new_email_pending = none;
  last_migration_date = none;
  current_email_verified = none;
  new_email_verified = none;
  current_email_token = none;
  new_email_token = none;
  last_migration_email_sent = none;
  migration_history = [];
}

abbrev pub new_row : UserRow
new_row = record { refresh_tokens = []; active_access_jtis = []; token_version = some 0 }

module _ (env : Env) where
  open env use {o, json}

  -- createEmailLinkCode; an exception of it changes nothing.
  unfoldable pub send_link : World → Fresh → EmailLinkKind → Worlds env → Worlds env
  send_link l fresh kind w =
      let payload : LinkPayload = record { kind = kind; secret = fresh.secret; meta = none } in
      let store : EmailStore o.redis.State = record {
        cache = w.sessions.cache;
        links = w.links;
        forms = w.forms;
      } in
      elim (create_email_link_code o.redis json l fresh.link_code payload store) [
        | none ↦ w
        | some s ↦ record w {
          sessions = record w.sessions { cache = s.cache };
          links = s.links;
          forms = s.forms;
        }
      ]

  unfoldable pub consume_form :
      World → Text → EmailLinkKind → Worlds env → Worlds env × Option Consumed
  consume_form l form_token kind w =
      let store : EmailStore o.redis.State = record {
        cache = w.sessions.cache;
        links = w.links;
        forms = w.forms;
      } in
      let (s, consumed) = consume_form_token o.redis json l form_token kind store in
      (
        record w {
          sessions = record w.sessions { cache = s.cache };
          links = s.links;
          forms = s.forms;
        },
        consumed,
      )

  -- The insertion of a new user, with the defaults of the session columns.
  unfoldable pub insert_account : Text → Account → Worlds env → Option (Worlds env)
  insert_account id a w =
      if clashes id a w.accounts
      then none
      else some (record w {
        accounts = insert id a w.accounts;
        sessions = record w.sessions { users = insert id new_row w.sessions.users };
      })

  abbrev pub owner_account : Option Text → Worlds env → Option (Text × Account)
  owner_account none w = none
  owner_account (some id) w = elim (lookup id w.accounts) [ none ↦ none | some a ↦ some (id, a) ]

  abbrev pub is_found : Option (Text × Account) → Bool
  is_found none = false
  is_found (some x) = true
