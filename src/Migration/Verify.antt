-- ===== src/Migration/Verify.antt =====
-- Verifying the two emails of a migration (verifyCurrentEmail and verifyNewEmail).
use uam_backend.Prelude.{
  none, some, true, false, Text, ℕ, Option, ◌∷◌, Bool, if◌then◌else◌, List, [], text, ◌==◌,
  to_lower, ◌&&◌, ◌++◌, not,
}
use uam_backend.Account.{MigrationHistoryEntry, Account, is_present, from_current, from_new}
use uam_backend.OneTime.Store.{World}
use uam_backend.Accounts.World.{
  Reply, Env, plain, is_text, Fresh, is_future, save_account, find_account,
}
use uam_backend.Session.{Moment}
use uam_backend.Accounts.Email.{new_account, insert_account, consume_form, owner_account}
use uam_backend.Migration.Preserve.{is_pending_to}
use uam_backend.Accounts.Login.{is_true, Worlds, version_of}
use uam_backend.Migration.Finalize.{finalize_migration_internal}
use uam_backend.OneTime.EmailLink.{migrate_current, migrate_new}
use uam_backend.Identity.Service.{find_user_id_by_primary_email, sync_identity_indexes}
use uam_backend.Accounts.Passwords.{has_text}

-- A refusal or the answer of the finalisation; or which emails are verified and which is awaited.
pub data VerifyAnswer : Type 0 where
  answer : (reply : Reply) → VerifyAnswer
  waiting : (current_is_verified new_is_verified : Bool) (waiting_for : Text) → VerifyAnswer

abbrev verification_failed : VerifyAnswer
verification_failed = answer (plain 500 (text "Verification failed"))

-- The part of an address before its first at sign.
abbrev pub local_part : Text → Text
local_part [] = []
local_part (c ∷ cs) = let rest = local_part cs in if c == b'@' then [] else c ∷ rest

-- The last entry of the history, if it is the pending one of the address.
unfoldable pub mark_latest :
    (MigrationHistoryEntry → MigrationHistoryEntry)
    → Text
    → List MigrationHistoryEntry
    → List MigrationHistoryEntry
mark_latest mark to_email [] = []
mark_latest mark to_email (e ∷ []) = (if is_pending_to to_email e then mark e else e) ∷ []
mark_latest mark to_email (e ∷ e' ∷ es) = e ∷ mark_latest mark to_email (e' ∷ es)

unfoldable pub pending_lower : Account → Text
pending_lower a = elim a.new_email_pending [ none ↦ [] | some email ↦ to_lower email ]

-- The marks of an entry; the other email is awaited, unless it is verified.
unfoldable pub current_entry : Bool → MigrationHistoryEntry → MigrationHistoryEntry
current_entry other_verified e = record e {
  current_verified = some true;
  pending_from = if other_verified then none else some from_new;
}

unfoldable pub new_entry : Bool → MigrationHistoryEntry → MigrationHistoryEntry
new_entry other_verified e = record e {
  new_verified = some true;
  pending_from = if other_verified then none else some from_current;
}

unfoldable pub current_marked : Account → Account
unfolding mark_latest current_entry
current_marked a = record a {
  current_email_verified = some true;
  migration_history =
      mark_latest (current_entry (is_true a.new_email_verified)) (pending_lower a)
        a.migration_history;
}

unfoldable pub new_marked : Account → Account
unfolding mark_latest new_entry
new_marked a = record a {
  new_email_verified = some true;
  migration_history =
      mark_latest (new_entry (is_true a.current_email_verified)) (pending_lower a)
        a.migration_history;
}

unfoldable pub both_verified : Account → Bool
both_verified a =
    is_true a.current_email_verified
    && is_true a.new_email_verified
    && is_present a.new_email_pending

unfoldable pub has_current_token : ℕ → Text → Account → Bool
has_current_token now hashed a =
    is_text a.current_email_token hashed && is_future now a.migration_token_expires

abbrev is_set : Option Text → Bool
is_set none = false
is_set (some t) = true

unfoldable pub has_new_token : ℕ → Text → Account → Bool
has_new_token now hashed a =
    is_text a.new_email_token hashed
    && is_future now a.migration_token_expires
    && is_set a.new_email_pending

module _ (env : Env) (avatar_url : Text → Text) where
  open env use {o}

  unfoldable pub finalize_answer : Moment → Fresh → Text → Worlds env → Worlds env × VerifyAnswer
  finalize_answer m fresh id w =
      let (w1, reply) =
        finalize_migration_internal env avatar_url m fresh id (version_of env id w) w in
      (w1, answer reply)

  -- The mark is saved, then the entry of the history: two saves of one row.
  unfoldable pub verify_current_for :
      Moment → Fresh → Text → Account → Worlds env → Worlds env × VerifyAnswer
  unfolding current_marked both_verified finalize_answer
  verify_current_for m fresh id a w =
      let marked = current_marked a in
      elim (save_account id marked w.accounts) [
        | none ↦ (w, verification_failed)
        | some accounts ↦
            let w1 : Worlds env = record w { accounts = accounts } in
            if both_verified marked then finalize_answer m fresh id w1 else (
              w1,
              waiting true (is_true marked.new_email_verified)
                  (if is_true marked.new_email_verified then text "none" else text "new"),
            )
      ]

  unfoldable pub verify_current_email :
      World → Moment → Fresh → Text → Worlds env → Worlds env × VerifyAnswer
  unfolding verify_current_for has_current_token
  verify_current_email l m fresh form_token w =
      let (w1, redeemed) = consume_form env l form_token migrate_current w in
      if not (has_text form_token)
      then (w, answer (plain 400 (text "formToken is required")))
      else elim redeemed [
        | none ↦ (w1, answer (plain 400 (text "Invalid or expired verification session")))
        | some consumed ↦
            elim (find_account (has_current_token m.now (o.hash consumed.secret)) w1.accounts) [
              | none ↦ (w1, answer (plain 400 (text "Invalid or expired token")))
              | some (id, a) ↦ verify_current_for m fresh id a w1
            ]
      ]

  unfoldable pub mark_new : Moment → Fresh → Text → Account → Worlds env → Worlds env × VerifyAnswer
  unfolding new_marked both_verified finalize_answer
  mark_new m fresh id a w =
      let marked = new_marked a in
      elim (save_account id marked w.accounts) [
        | none ↦ (w, verification_failed)
        | some accounts ↦
            let w1 : Worlds env = record w { accounts = accounts } in
            if both_verified marked then finalize_answer m fresh id w1 else (
              w1,
              waiting (is_true marked.current_email_verified) true
                  (if is_true marked.current_email_verified then text "new" else text "current"),
            )
      ]

  -- An account that stands in for the new email until the migration is finalised.
  unfoldable pub placeholder_account : Text → Account
  placeholder_account new_email = new_account new_email (text "User " ++ local_part new_email)

  unfoldable pub verify_new_for :
      Moment → Fresh → Text → Account → Worlds env → Worlds env × VerifyAnswer
  unfolding mark_new placeholder_account insert_account
  verify_new_for m fresh id a w =
      let new_email = pending_lower a in
      let placeholder = placeholder_account new_email in
      elim (owner_account env (find_user_id_by_primary_email env.digest m.now new_email w.index)
        w) [
          | some (j, b) ↦ mark_new m fresh id a w
          | none ↦ elim (insert_account env fresh.new_id placeholder w) [
            | none ↦ (w, verification_failed)
            | some w1 ↦
                elim (sync_identity_indexes env.digest fresh.new_id placeholder m.now w1.index) [
                  | none ↦ (w1, verification_failed)
                  | some index ↦ mark_new m fresh id a (record w1 { index = index })
                ]
          ]
        ]

  unfoldable pub verify_new_email :
      World → Moment → Fresh → Text → Worlds env → Worlds env × VerifyAnswer
  unfolding verify_new_for has_new_token
  verify_new_email l m fresh form_token w =
      let (w1, redeemed) = consume_form env l form_token migrate_new w in
      if not (has_text form_token)
      then (w, answer (plain 400 (text "formToken is required")))
      else elim redeemed [
        | none ↦ (w1, answer (plain 400 (text "Invalid or expired verification session")))
        | some consumed ↦
            elim (find_account (has_new_token m.now (o.hash consumed.secret)) w1.accounts) [
              | none ↦ (w1, answer (plain 400 (text "Invalid or expired token")))
              | some (id, a) ↦ verify_new_for m fresh id a w1
            ]
      ]
