-- ===== src/Account.antt =====
-- The columns of a user that sessions are not made of (IUser of src/db/User.ts). The session
-- columns (refresh tokens, tracked access tokens, token version) are in Session.antt.
use uam_backend.Prelude.{Text, Option, List, Bool, ℕ, none, some, [], ◌∷◌, false, true}

pub data AuthProvider : Type 0 where
  local : AuthProvider
  google : AuthProvider
  github : AuthProvider

pub data MigrationStatus : Type 0 where
  success : MigrationStatus
  failed : MigrationStatus
  pending : MigrationStatus
  reverted : MigrationStatus

pub data PendingFrom : Type 0 where
  from_current : PendingFrom
  from_new : PendingFrom
  from_both : PendingFrom

pub record MigrationHistoryEntry : Type 0 where
  pub from_email : Text
  pub to_email : Text
  pub status : MigrationStatus
  pub initiated_at : ℕ
  pub completed_at : Option ℕ
  pub reverted_at : Option ℕ
  pub current_verified : Option Bool
  pub new_verified : Option Bool
  pub pending_from : Option PendingFrom

pub record Account : Type 0 where
  pub email : Text
  pub previous_email : Option Text
  pub password : Option Text
  pub display_name : Text
  pub avatar : Option Text
  pub bio : Option Text
  pub is_email_verified : Bool
  pub login_count : Option ℕ
  pub last_login : Option ℕ
  pub email_verification_token : Option Text
  pub email_verification_expires : Option ℕ
  pub password_reset_token : Option Text
  pub password_reset_expires : Option ℕ
  pub provider : AuthProvider
  pub provider_id : Option Text
  pub migration_expiry : Option ℕ
  pub migration_token : Option Text
  pub migration_token_expires : Option ℕ
  pub new_email_pending : Option Text
  pub last_migration_date : Option ℕ
  pub current_email_verified : Option Bool
  pub new_email_verified : Option Bool
  pub current_email_token : Option Text
  pub new_email_token : Option Text
  pub last_migration_email_sent : Option ℕ
  pub migration_history : List MigrationHistoryEntry

-- A text that is set and not empty, as the conditions of the source read an optional text.
abbrev pub non_empty : Option Text → Option Text
non_empty none = none
non_empty (some []) = none
non_empty (some (c ∷ cs)) = some (c ∷ cs)

abbrev pub is_present : Option Text → Bool
is_present o = elim (non_empty o) [ none ↦ false | some t ↦ true ]
