-- ===== src/Migration/Marks.antt =====
-- The marks of the two emails, and the history that is shown.
use uam_backend.Prelude.{
  none, some, true, false, Text, List, ◌≡◌, ◌&&◌, ◌∷◌, ◌||◌, [], refl, arith, Option, not, ◌∙◌, ℕ,
  ap, Bool, sym,
}
use uam_backend.Account.{success, pending, MigrationHistoryEntry, Account, is_present}
use uam_backend.Migration.Verify.{
  mark_latest, new_marked, current_marked, both_verified, pending_lower, new_entry, current_entry,
}
use uam_backend.Migration.Status.{shown_entry, by_marks, by_completion}
use uam_backend.Migration.Preserve.{is_pending_to, same_status}
use uam_backend.Accounts.Login.{is_true}

mark_latest_skip :
    (f g : MigrationHistoryEntry → MigrationHistoryEntry) (to_email : Text)
    (e e' : MigrationHistoryEntry) (es : List MigrationHistoryEntry)
    → mark_latest f to_email (e ∷ mark_latest g to_email (e' ∷ es))
      ≡ e ∷ mark_latest f to_email (mark_latest g to_email (e' ∷ es))
unfolding mark_latest
mark_latest_skip f g to_email e e' [] = refl
mark_latest_skip f g to_email e e' (e'' ∷ es) = refl

mark_latest-mark_latest :
    (f g h k : MigrationHistoryEntry → MigrationHistoryEntry) (to_email : Text)
    (es : List MigrationHistoryEntry)
    → ((e : MigrationHistoryEntry) → is_pending_to to_email (g e) ≡ is_pending_to to_email e)
    → ((e : MigrationHistoryEntry) → is_pending_to to_email (k e) ≡ is_pending_to to_email e)
    → ((e : MigrationHistoryEntry) → f (g e) ≡ h (k e))
    → mark_latest f to_email (mark_latest g to_email es)
      ≡ mark_latest h to_email (mark_latest k to_email es)
unfolding mark_latest
mark_latest-mark_latest f g h k to_email [] p q c = refl
mark_latest-mark_latest f g h k to_email (e ∷ []) p q c = ground (arith, p e, q e, c e)
mark_latest-mark_latest f g h k to_email (e ∷ e' ∷ es) p q c =
    mark_latest_skip f g to_email e e' es
    ∙ ap (λ l. e ∷ l) (mark_latest-mark_latest f g h k to_email (e' ∷ es) p q c)
    ∙ sym (mark_latest_skip h k to_email e e' es)

-- The two emails of a migration may be verified in either order: the account is the same after
-- both, and it is then ready to be finalised exactly if an email is pending.
pub new_marked-current_marked :
    (a : Account)
    → (new_marked (current_marked a) ≡ current_marked (new_marked a))
      × (both_verified (new_marked (current_marked a)) ≡ is_present a.new_email_pending)
unfolding new_marked current_marked both_verified pending_lower new_entry current_entry
    is_pending_to
new_marked-current_marked a = (
  ap
      (λ history. record a {
        current_email_verified = some true;
        new_email_verified = some true;
        migration_history = history;
      })
      (mark_latest-mark_latest (new_entry true) (current_entry (is_true a.new_email_verified))
        (current_entry true) (new_entry (is_true a.current_email_verified)) (pending_lower a)
        a.migration_history (λ e. refl) (λ e. refl) (λ e. refl)),
  refl,
)

abbrev pub is_set_time : Option ℕ → Bool
is_set_time none = false
is_set_time (some t) = true

-- An entry of the history is shown as a success exactly if both emails are marked, or it has been
-- completed, or it is one; it is shown as pending exactly if it is pending and neither holds; and
-- showing what is shown changes nothing.
pub shown_entry-status :
    (e : MigrationHistoryEntry)
    → let current_ok = is_true e.current_verified in
      let new_ok = is_true e.new_verified in
      (same_status (shown_entry e).status success
        ≡ ((current_ok && new_ok) || is_set_time e.completed_at || same_status e.status success))
      × (same_status (shown_entry e).status pending ≡ (
          same_status e.status pending
          && not (current_ok && new_ok)
          && not (is_set_time e.completed_at)))
      × (shown_entry (shown_entry e) ≡ shown_entry e)
unfolding shown_entry by_marks by_completion
shown_entry-status e = (ground arith, ground arith, ground arith)
