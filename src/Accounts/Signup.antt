-- ===== src/Accounts/Signup.antt =====
-- Registering and verifying an email (register, resendVerification, verifyEmail and
-- postVerificationStatus of src/controllers/auth.controller.ts).
use uam_backend.Prelude.{
  Text, ℕ, text, Bool, Option, to_lower, some, if◌then◌else◌, ◌+◌, ◌&&◌, true, none, not, ◌||◌,
  false,
}
use uam_backend.OneTime.Store.{World}
use uam_backend.Accounts.World.{
  Reply, Env, plain, Fresh, signed_in, is_text, save_account, coded, is_future, public_user,
  same_provider, find_account,
}
use uam_backend.Session.{Moment}
use uam_backend.Accounts.Email.{
  send_link, consume_form, Registration, owner_account, day_ms, new_account, insert_account,
}
use uam_backend.Accounts.Login.{Worlds, open_session, save_and_sync}
use uam_backend.Account.{Account, local}
use uam_backend.Accounts.Passwords.{stored_password, has_text}
use uam_backend.OneTime.Poll.{create_poll_token, resolve_poll_token}
use uam_backend.Identity.Service.{
  find_user_id_by_primary_email, sync_identity_indexes, find_pending_migration_holder,
}
use uam_backend.OneTime.EmailLink.{verify_email}

abbrev already_registered : Reply
already_registered = plain 400 (text "Email already registered")

abbrev registration_failed : Reply
registration_failed = plain 500 (text "Registration failed")

abbrev verification_requested : Reply
verification_requested =
    plain 200 (text "If the account exists and is unverified, a verification email has been sent")

module _ (env : Env) where
  open env use {o}

  -- The account that a registration saves, from a new one or one that was never verified.
  unfoldable pub registered_account : ℕ → Fresh → Registration → Account → Account
  registered_account now fresh req a = record a {
    password = stored_password env.hashing fresh.salt req.new_password;
    display_name = req.new_display_name;
    provider = local;
    email_verification_token = if env.auto_verify_email then none else some (o.hash fresh.secret);
    email_verification_expires = if env.auto_verify_email then none else some (now + day_ms);
    is_email_verified = env.auto_verify_email;
  }

  -- createVerificationPollToken; an exception of it fails the registration.
  unfoldable pub with_poll_token : World → Fresh → Text → Account → Worlds env → Worlds env × Reply
  with_poll_token l fresh id a w =
      elim (create_poll_token o.redis l fresh.poll_token id
        (record { cache = w.sessions.cache; memory = w.polls })) [
          | none ↦ (w, registration_failed)
          | some s ↦ (
            record w { sessions = record w.sessions { cache = s.cache }; polls = s.memory },
            record (plain 201
                (text "Registration successful. Please check your email to verify your account.")) {
                  user = some (public_user id a);
                },
          )
        ]

  unfoldable pub finish_registration :
      World → Moment → Fresh → Text → Account → Worlds env → Worlds env × Reply
  unfolding with_poll_token open_session signed_in
  finish_registration l m fresh id a w =
      elim (sync_identity_indexes env.digest id a m.now w.index) [
        | none ↦ (w, registration_failed)
        | some index ↦
            let w1 : Worlds env = record w { index = index } in
            if env.auto_verify_email
            then (
              open_session env m fresh id w1,
              signed_in env.omit_refresh_in_body 201 (text "Registration successful") fresh id a,
            )
            else with_poll_token l fresh id a (send_link env l fresh verify_email w1)
      ]

  unfoldable pub register_over :
      World
      → Moment
      → Fresh
      → Registration
      → Option (Text × Account)
      → Worlds env
      → Worlds env × Reply
  unfolding finish_registration registered_account
  register_over l m fresh req (some (id, old)) w =
      let a = registered_account m.now fresh req old in
      if old.is_email_verified
      then (w, already_registered)
      else elim (save_account id a w.accounts) [
        | none ↦ (w, already_registered)
        | some accounts ↦ finish_registration l m fresh id a (record w { accounts = accounts })
      ]
  register_over l m fresh req none w =
      let a =
        registered_account m.now fresh req
          (new_account (to_lower req.new_email_address) req.new_display_name) in
      elim (insert_account env fresh.new_id a w) [
        | none ↦ (w, already_registered)
        | some w1 ↦ finish_registration l m fresh fresh.new_id a w1
      ]

  unfoldable pub register : World → Moment → Fresh → Registration → Worlds env → Worlds env × Reply
  unfolding register_over
  register l m fresh req w =
      let lower_email = to_lower req.new_email_address in
      elim (find_pending_migration_holder env.digest m.now lower_email w.index) [
        | some holder ↦ (
          w,
          coded 400
              (text
                "This email is pending migration from another account. Please complete the migration process first.")
              (text "PENDING_MIGRATION"),
        )
        | none ↦
            register_over l m fresh req
              (owner_account env
                (find_user_id_by_primary_email env.digest m.now lower_email w.index) w)
              w
      ]

  unfoldable pub resend_for :
      World → Moment → Fresh → Text → Account → Worlds env → Worlds env × Reply
  unfolding send_link
  resend_for l m fresh id a w =
      let changed : Account = record a {
        email_verification_token = some (o.hash fresh.secret);
        email_verification_expires = some (m.now + day_ms);
      } in
      if a.is_email_verified || not (same_provider a.provider local)
      then (w, verification_requested)
      else elim (save_account id changed w.accounts) [
        | none ↦ (w, plain 500 (text "Server error"))
        | some accounts ↦ (
          send_link env l fresh verify_email (record w { accounts = accounts }),
          verification_requested,
        )
      ]

  unfoldable pub resend_verification :
      World → Moment → Fresh → Text → Worlds env → Worlds env × Reply
  unfolding resend_for
  resend_verification l m fresh email w =
      elim (owner_account env
        (find_user_id_by_primary_email env.digest m.now (to_lower email) w.index) w) [
          | none ↦ (w, verification_requested)
          | some (id, a) ↦ resend_for l m fresh id a w
        ]

  unfoldable pub has_verification_token : ℕ → Text → Account → Bool
  has_verification_token now hashed a =
      is_text a.email_verification_token hashed
      && is_future now a.email_verification_expires
      && same_provider a.provider local

  unfoldable pub verified_account : Fresh → Text → Account → Account
  verified_account fresh password a = record a {
    password = stored_password env.hashing fresh.salt password;
    is_email_verified = true;
    email_verification_token = none;
    email_verification_expires = none;
  }

  unfoldable pub post_verify_email :
      World → Moment → Fresh → Text → Text → Worlds env → Worlds env × Reply
  unfolding has_verification_token verified_account consume_form save_and_sync
  post_verify_email l m fresh form_token password w =
      let (w1, redeemed) = consume_form env l form_token verify_email w in
      elim redeemed [
        | none ↦ (w1, plain 400 (text "Invalid or expired verification session"))
        | some consumed ↦
            elim (find_account (has_verification_token m.now (o.hash consumed.secret))
              w1.accounts) [
                | none ↦ (w1, plain 400 (text "Invalid or expired verification token"))
                | some (id, a) ↦
                    let verified = verified_account fresh password a in
                    save_and_sync env m.now id verified w1
                      (plain 500 (text "Email verification failed"))
                      (λ w2. (
                        open_session env m fresh id w2,
                        signed_in env.omit_refresh_in_body 200 (text "Email verified successfully")
                            fresh id verified,
                      ))
              ]
      ]

  -- Whether the user of a poll token has a verified email, and the answer's status.
  unfoldable pub post_verification_status : World → Text → Worlds env → Worlds env × ℕ × Bool
  post_verification_status l poll_token w =
      let (s, id) =
        resolve_poll_token o.redis l poll_token
          (record { cache = w.sessions.cache; memory = w.polls }) in
      let w1 : Worlds env = record w {
        sessions = record w.sessions { cache = s.cache };
        polls = s.memory;
      } in
      if not (has_text poll_token) then (w, 400, false) else elim (owner_account env id w1) [
        | none ↦ (w1, 200, false)
        | some (j, a) ↦ (w1, 200, a.is_email_verified)
      ]
