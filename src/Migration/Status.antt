-- ===== src/Migration/Status.antt =====
-- What a user sees of migrations (getMigrationStatus and getMigrationHistory). Times are shown as
-- they are.
use mathlib.Core.List.{reverse}
use uam_backend.Prelude.{
  none, some, true, Text, Bool, ℕ, Option, List, ◌+◌, if◌then◌else◌, ◌/◌, ltb, map, ◌&&◌, not, ◌-◌,
}
use uam_backend.Account.{
  success, pending, MigrationHistoryEntry, Account, MigrationStatus, is_present, PendingFrom,
  non_empty, from_both, from_current, from_new,
}
use uam_backend.Accounts.Login.{is_true}
use uam_backend.Migration.Start.{resend_ms}
use uam_backend.Migration.Preserve.{same_status}
use uam_backend.Accounts.World.{is_future}

pub record StatusView : Type 0 where
  pub has_pending_migration : Bool
  pub current_address : Text
  pub new_address : Option Text
  pub current_is_verified : Bool
  pub new_is_verified : Bool
  pub view_expiry : Option ℕ
  pub cooldown_remaining : ℕ
  pub needs_finalization : Bool

-- Math.ceil of a number of milliseconds, in seconds.
abbrev seconds_up : ℕ → ℕ
seconds_up ms = (ms + 999) / 1_000

unfoldable pub cooldown_left : ℕ → Option ℕ → ℕ
cooldown_left now none = 0
cooldown_left now (some sent) =
    if ltb now (sent + resend_ms) then seconds_up (sent + resend_ms - now) else 0

unfoldable pub get_migration_status : ℕ → Account → StatusView
unfolding cooldown_left
get_migration_status now a =
    let pending_now = is_present a.new_email_pending && is_future now a.migration_token_expires in
    let current_ok = is_true a.current_email_verified in
    let new_ok = is_true a.new_email_verified in
    record {
      has_pending_migration = pending_now;
      current_address = a.email;
      new_address = non_empty a.new_email_pending;
      current_is_verified = current_ok;
      new_is_verified = new_ok;
      view_expiry = a.migration_token_expires;
      cooldown_remaining = cooldown_left now a.last_migration_email_sent;
      needs_finalization = pending_now && current_ok && new_ok;
    }

-- The status and the awaited email from the two marks.
unfoldable pub by_marks : Bool → Bool → MigrationHistoryEntry → MigrationStatus × Option PendingFrom
by_marks true true e = (success, none)
by_marks current_ok new_ok e =
    if not (same_status e.status pending)
    then (e.status, e.pending_from)
    else if not current_ok && not new_ok
    then (pending, some from_both)
    else if not current_ok
    then (pending, some from_current)
    else (pending, some from_new)

-- An entry with a time of completion is shown as a success.
unfoldable pub by_completion :
    Option ℕ → MigrationStatus × Option PendingFrom → MigrationStatus × Option PendingFrom
by_completion none shown = shown
by_completion (some t) (s, from) = if same_status s success then (s, from) else (success, none)

unfoldable pub shown_entry : MigrationHistoryEntry → MigrationHistoryEntry
unfolding by_marks by_completion
shown_entry e =
    let (shown, from) =
      by_completion e.completed_at
        (by_marks (is_true e.current_verified) (is_true e.new_verified) e) in
    record e {
      status = shown;
      current_verified = some (is_true e.current_verified);
      new_verified = some (is_true e.new_verified);
      pending_from = from;
    }

unfoldable pub get_migration_history : List MigrationHistoryEntry → List MigrationHistoryEntry
unfolding shown_entry
get_migration_history history = reverse (map shown_entry history)
