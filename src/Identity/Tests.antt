-- ===== src/Identity/Tests.antt =====
-- The theorems on the identity index at concrete inputs. The digest is the identity here.
use uam_backend.Prelude.{
  Text, Option, text_eq, ℕ, text, Distinct, ◌≡◌, none, some, arith, false, true, ◌∷◌, text_eq_iff,
  lookup, ◌≢◌, to_lower, trim, [], trim_start, refl, is_space,
}
use uam_backend.Account.{Account, google}
use uam_backend.Identity.Table.{IndexTable, pending_migration, sweep_expired, primary_email}
use uam_backend.Identity.Service.{
  find_active, sync_identity_indexes, email_key, normalize_email, find_pending_migration_holder,
  backfill, find_user_id_by_primary_email,
}
use uam_backend.Identity.Sync.{after_sync, claims, sync_identity_indexes-lookup}
use uam_backend.Identity.Resolve.{sweep_expired-find_active, backfill-find_user_id_by_primary_email}

abbrev digest : Text → Text
digest t = t

abbrev account : Text → Option Text → Option ℕ → Account
account email previous expiry = record {
  email = email;
  previous_email = previous;
  password = none;
  display_name = text "n";
  avatar = none;
  bio = none;
  is_email_verified = true;
  login_count = none;
  last_login = none;
  email_verification_token = none;
  email_verification_expires = none;
  password_reset_token = none;
  password_reset_expires = none;
  provider = google;
  provider_id = some (text "77");
  migration_expiry = expiry;
  migration_token = none;
  migration_token_expires = none;
  new_email_pending = none;
  last_migration_date = none;
  current_email_verified = none;
  new_email_verified = none;
  current_email_token = none;
  new_email_token = none;
  last_migration_email_sent = none;
  migration_history = [];
}

abbrev first : Account
first = account (text "A@b.c") (some (text "old@b.c")) (some 500)

abbrev second : Account
second = account (text "d@b.c") none none

-- A row of the first user that its columns no longer call for, and one of the second user.
abbrev table : IndexTable
table =
    (
      text "pending_migration:x",
      record {
        kind = pending_migration;
        user_id = text "u1";
        provider = none;
        verified = none;
        expires_at = some 50;
      },
    )
    ∷ (
      text "primary_email:d@b.c",
      record {
        kind = primary_email;
        user_id = text "u2";
        provider = none;
        verified = some false;
        expires_at = none;
      },
    )
    ∷ []

table-Distinct : Distinct table
unfolding text_eq
table-Distinct = (
  (
    (λ e. ground (arith, text_eq_iff (text "primary_email:d@b.c") (text "pending_migration:x"))),
    tt,
  ),
  (tt, tt),
)

sync_identity_indexes-lookup_example :
    (t' : IndexTable) × (sync_identity_indexes digest (text "u1") first 100 table ≡ some t')
    × Distinct t'
    × ((k : Text)
        → lookup k t'
          ≡ after_sync
              (text "u1")
              (lookup k (claims digest (text "u1") first 100))
              (lookup k table))
sync_identity_indexes-lookup_example =
    sync_identity_indexes-lookup digest (text "u1") first 100 table refl table-Distinct

unequal : (s t : Text) → text_eq s t ≡ false → s ≢ t
unequal s t h = ground (arith, text_eq_iff s t)

backfill-find_user_id_by_primary_email_example :
    (t' : IndexTable) × (backfill digest
        ((text "u1", first, 100) ∷ (text "u2", second, 110) ∷ [])
        table
      ≡ some t')
    × (find_user_id_by_primary_email digest 1_000 (text "A@b.c") t' ≡ some (text "u1"))
unfolding text_eq email_key normalize_email to_lower trim trim_start is_space
backfill-find_user_id_by_primary_email_example =
    backfill-find_user_id_by_primary_email digest (text "u1") first 100 1_000
      ((text "u2", second, 110) ∷ []) table refl
      (
        (
          refl,
          unequal (text "u2") (text "u1") refl,
          unequal (email_key digest primary_email (text "d@b.c"))
              (email_key digest primary_email (text "A@b.c")) refl,
        ),
        tt,
      )
      table-Distinct

sweep_expired-find_active_example :
    (find_active digest 200 pending_migration (text "x") (sweep_expired 100 table)
      ≡ find_active digest 200 pending_migration (text "x") table)
    × (find_pending_migration_holder digest 200 (text "x") (sweep_expired 100 table)
        ≡ find_pending_migration_holder digest 200 (text "x") table)
sweep_expired-find_active_example =
    sweep_expired-find_active digest 100 200 pending_migration (text "x") table (omega arith)
      table-Distinct
