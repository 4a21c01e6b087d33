-- ===== src/Migration/Preserve.antt =====
-- What a migration keeps of a user (src/utils/migration-data-preserver.ts), and what its end does to
-- the history of migrations (src/controllers/migration.controller.ts).
use uam_backend.Prelude.{
  none, some, true, false, Text, Option, ℕ, [], Bool, List, ◌&&◌, ◌∷◌, text_eq, if◌then◌else◌,
}
use uam_backend.Account.{
  success, failed, pending, reverted, Account, MigrationStatus, MigrationHistoryEntry, AuthProvider,
  non_empty,
}
use uam_backend.Session.{or_zero}

pub record PreservedUserData : Type 0 where
  pub kept_bio : Text
  pub kept_name : Text
  pub kept_avatar : Option Text
  pub kept_count : ℕ
  pub kept_login : Option ℕ
  pub kept_provider : AuthProvider
  pub kept_provider_id : Option Text

abbrev pub text_or_empty : Option Text → Text
text_or_empty none = []
text_or_empty (some t) = t

unfoldable pub extract_user_data : Account → PreservedUserData
extract_user_data a = record {
  kept_bio = text_or_empty a.bio;
  kept_name = a.display_name;
  kept_avatar = a.avatar;
  kept_count = or_zero a.login_count;
  kept_login = a.last_login;
  kept_provider = a.provider;
  kept_provider_id = a.provider_id;
}

-- `avatar_url` is the Gravatar address of an email.
unfoldable pub apply_user_data : (Text → Text) → PreservedUserData → Text → Account → Account
apply_user_data avatar_url d new_email a = record a {
  bio = some d.kept_bio;
  display_name = d.kept_name;
  avatar = elim (non_empty d.kept_avatar) [ none ↦ some (avatar_url new_email) | some t ↦ some t ];
  login_count = some d.kept_count;
  last_login = d.kept_login;
  provider = d.kept_provider;
  provider_id = d.kept_provider_id;
}

abbrev pub same_status : MigrationStatus → MigrationStatus → Bool
same_status success success = true
same_status failed failed = true
same_status pending pending = true
same_status reverted reverted = true
same_status _ _ = false

unfoldable pub is_pending_to : Text → MigrationHistoryEntry → Bool
is_pending_to to_email e = same_status e.status pending && text_eq e.to_email to_email

unfoldable pub completed_entry : ℕ → MigrationHistoryEntry → MigrationHistoryEntry
completed_entry now e = record e {
  status = success;
  completed_at = some now;
  current_verified = some true;
  new_verified = some true;
  pending_from = none;
}

-- The first pending entry for the address is completed; if there is none, one is added.
unfoldable pub complete_history :
    ℕ → Text → Text → List MigrationHistoryEntry → List MigrationHistoryEntry
unfolding is_pending_to completed_entry
complete_history now from_email to_email [] =
    record {
      from_email = from_email;
      to_email = to_email;
      status = success;
      initiated_at = now;
      completed_at = some now;
      reverted_at = none;
      current_verified = some true;
      new_verified = some true;
      pending_from = none;
    }
    ∷ []
complete_history now from_email to_email (e ∷ es) =
    let rest = complete_history now from_email to_email es in
    if is_pending_to to_email e then completed_entry now e ∷ es else e ∷ rest
