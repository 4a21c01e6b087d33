-- ===== src/Migration/Start.antt =====
-- Starting a migration and sending its emails again (initiateMigration and resendMigrationEmails).
-- The two emails are sent or not as two arguments say; a link's code is created before either. An
-- exception there ends the request with status 500.
use uam_backend.Prelude.{
  none, some, false, Text, Option, ℕ, ◌*◌, Bool, ltb, text, ◌+◌, if◌then◌else◌, ◌&&◌, not, text_eq,
  to_lower, ◌++◌, ◌∷◌, [], ◌||◌, lookup,
}
use uam_backend.OneTime.Store.{World}
use uam_backend.Accounts.World.{Reply, Env, plain, coded, is_future, same_provider, is_text}
use uam_backend.Account.{
  Account, MigrationHistoryEntry, is_present, MigrationStatus, non_empty, local, from_both,
}
use uam_backend.OneTime.EmailLink.{
  EmailStore, LinkPayload, create_email_link_code, migrate_current, migrate_new,
}
use uam_backend.Accounts.Login.{save_and_sync, save_rehash, Worlds}
use uam_backend.Session.{Moment}
use uam_backend.Accounts.Email.{day_ms, owner_account, is_found}
use uam_backend.Identity.Service.{find_user_id_by_primary_email}
use uam_backend.Accounts.Passwords.{compare_password}

pub record MigrationRequest : Type 0 where
  pub current_password : Option Text
  pub requested_email : Option Text
  pub confirm_override : Option Text

-- The secrets, codes and salt that a request draws.
pub record MigrationFresh : Type 0 where
  pub current_secret : Text
  pub new_secret : Text
  pub current_code : Text
  pub new_code : Text
  pub rehash_salt : Text

abbrev pub migration_cooldown_ms : ℕ
migration_cooldown_ms = 10 * 86_400_000

abbrev pub resend_ms : ℕ
resend_ms = 30_000

-- A time that was less than a length ago.
abbrev pub is_within : ℕ → ℕ → Option ℕ → Bool
is_within now len none = false
is_within now len (some t) = ltb now (t + len)

unfoldable pub in_grace_period : ℕ → Account → Bool
in_grace_period now a = is_present a.previous_email && is_future now a.migration_expiry

abbrev pub pending_entry : ℕ → Text → Text → MigrationHistoryEntry
pending_entry now from_email to_email = record {
  from_email = from_email;
  to_email = to_email;
  status = MigrationStatus.pending;
  initiated_at = now;
  completed_at = none;
  reverted_at = none;
  current_verified = some false;
  new_verified = some false;
  pending_from = some from_both;
}

abbrev migration_error : Reply
migration_error = plain 500 (text "Failed to initiate migration")

-- The refusals that come before the password, in the source's order.
unfoldable pub migration_refusal : ℕ → Account → Option Reply
unfolding in_grace_period
migration_refusal now a =
    if is_present a.new_email_pending
    then some (
        coded 400 (text "You already have a pending migration. Please complete or cancel it first.")
          (text "PENDING_MIGRATION_EXISTS"))
    else if in_grace_period now a
    then some (
        coded 400
          (text
            "You are currently in a migration grace period. Please wait until the grace period ends before migrating again.")
          (text "MIGRATION_IN_PROGRESS"))
    else if is_within now migration_cooldown_ms a.last_migration_date
    then some (coded 429 (text "Migration cooldown active.") (text "MIGRATION_COOLDOWN"))
    else none

unfoldable pub target_refusal : MigrationRequest → Text → Option (Text × Account) → Option Reply
target_refusal req id none = none
target_refusal req id (some (j, b)) =
    if text_eq j id
    then some (plain 400 (text "This is already your current email address"))
    else if not (is_text req.confirm_override (text "true"))
    then some (coded 409 (text "An account with this email already exists") (text "EMAIL_EXISTS"))
    else none

module _ (env : Env) where
  open env use {o, json}

  -- What the start of a migration writes.
  unfoldable pub started_account : ℕ → MigrationFresh → Text → Account → Account
  started_account now fresh new_email a = record a {
    new_email_pending = some new_email;
    current_email_token = some (o.hash fresh.current_secret);
    new_email_token = some (o.hash fresh.new_secret);
    current_email_verified = some false;
    new_email_verified = some false;
    migration_token_expires = some (now + day_ms);
    last_migration_email_sent = some now;
    migration_history = a.migration_history ++ pending_entry now a.email new_email ∷ [];
  }

  abbrev with_email_store : EmailStore o.redis.State → Worlds env → Worlds env
  with_email_store s w = record w {
    sessions = record w.sessions { cache = s.cache };
    links = s.links;
    forms = s.forms;
  }

  -- buildMigrationVerifyUrl, whose code is the state's only change; `none` is an exception.
  unfoldable pub build_link : World → Text → LinkPayload → Worlds env → Option (Worlds env)
  build_link l link_code payload w =
      elim (create_email_link_code o.redis json l link_code payload
        (record { cache = w.sessions.cache; links = w.links; forms = w.forms })) [
          | none ↦ none
          | some s ↦ some (with_email_store s w)
        ]

  -- The two links, the new one with where it leads, then the emails: one of the two must be sent.
  unfoldable pub send_both :
      World → MigrationFresh → Bool → Bool → Text → Text → Bool → Worlds env → Worlds env × Reply
  unfolding build_link
  send_both l fresh current_sent new_sent done failed account_exists w =
      let redirect : Text = if account_exists then text "login" else text "signup" in
      let current : LinkPayload = record {
        kind = migrate_current;
        secret = fresh.current_secret;
        meta = none;
      } in
      let new : LinkPayload = record {
        kind = migrate_new;
        secret = fresh.new_secret;
        meta = some ((text "redirect", redirect) ∷ []);
      } in
      elim (build_link l fresh.current_code current w) [
        | none ↦ (w, plain 500 failed)
        | some w1 ↦ elim (build_link l fresh.new_code new w1) [
          | none ↦ (w1, plain 500 failed)
          | some w2 ↦
              if current_sent || new_sent then (w2, plain 200 done) else (w2, plain 500 failed)
        ]
      ]

  unfoldable pub start_migration :
      World
      → Moment
      → MigrationFresh
      → Bool
      → Bool
      → Text
      → Text
      → Account
      → Bool
      → Worlds env
      → Worlds env × Reply
  unfolding started_account send_both save_and_sync
  start_migration l m fresh current_sent new_sent id new_email a account_exists w =
      save_and_sync env m.now id (started_account m.now fresh new_email a) w migration_error (
        send_both l fresh current_sent new_sent
          (text "Verification links sent to both email addresses")
          (text
            "Failed to send verification emails. Please check your email configuration and try again later.")
          account_exists)

  -- The password of a local account is asked for, and may be hashed anew.
  unfoldable pub check_owner :
      MigrationRequest
      → MigrationFresh
      → Text
      → Account
      → Worlds env
      → (Account → Worlds env → Worlds env × Reply)
      → Worlds env × Reply
  unfolding save_rehash
  check_owner req fresh id a w next =
      if not (same_provider a.provider local)
      then next a w
      else elim (non_empty req.current_password) [
        | none ↦ (w, plain 400 (text "Password is required"))
        | some password ↦
            let (is_match, stored) =
              compare_password env.hashing fresh.rehash_salt password a.password in
            let w1 = save_rehash env id a stored w in
            if not is_match
            then (w, plain 401 (text "Invalid password"))
            else elim (lookup id w1.accounts) [
              | none ↦ (w1, plain 404 (text "User not found"))
              | some b ↦ next b w1
            ]
      ]

  unfoldable pub initiate_for :
      World
      → Moment
      → MigrationFresh
      → Bool
      → Bool
      → MigrationRequest
      → Text
      → Text
      → Account
      → Worlds env
      → Worlds env × Reply
  unfolding migration_refusal target_refusal check_owner start_migration
  initiate_for l m fresh current_sent new_sent req id new_email a w =
      let lower_email = to_lower new_email in
      let existing =
        owner_account env (find_user_id_by_primary_email env.digest m.now lower_email w.index) w in
      elim (migration_refusal m.now a) [
        | some refusal ↦ (w, refusal)
        | none ↦ elim (target_refusal req id existing) [
          | some refusal ↦ (w, refusal)
          | none ↦ check_owner req fresh id a w (λ b.
              start_migration l m fresh current_sent new_sent id lower_email b
                (is_found env existing))
        ]
      ]

  unfoldable pub initiate_migration :
      World
      → Moment
      → MigrationFresh
      → Bool
      → Bool
      → MigrationRequest
      → Text
      → Account
      → Worlds env
      → Worlds env × Reply
  unfolding initiate_for
  initiate_migration l m fresh current_sent new_sent req id a w =
      elim (non_empty req.requested_email) [
        | none ↦ (w, plain 400 (text "New email is required"))
        | some new_email ↦ initiate_for l m fresh current_sent new_sent req id new_email a w
      ]
