-- ===== src/Migration/Tests.antt =====
-- The theorems on migrations at concrete inputs.
use uam_backend.Prelude.{
  none, some, true, lookup, text_eq, text, Distinct, [], ◌≡◌, delete, refl, arith, ◌+◌,
}
use uam_backend.Account.{Account, is_present}
use uam_backend.Migration.Start.{MigrationFresh, MigrationRequest}
use uam_backend.Migration.Verify.{new_marked, current_marked, both_verified}
use uam_backend.Accounts.Samples.{
  sample_account, sample_env, sample_backend, unequal_texts, sample_moment, sample_fresh,
  sample_outside, sample_row,
}
use uam_backend.Migration.Stuck.{IsStuck, migration-IsStuck}
use uam_backend.Accounts.World.{clashes}
use uam_backend.Migration.Marks.{new_marked-current_marked}
use uam_backend.Migration.Finalize.{migrated_account, merge_accounts}
use uam_backend.Cache.{answered}
use uam_backend.Accounts.Login.{moved_account, version_of}
use uam_backend.Migration.Merge.{KeepsData, merge_accounts_ends}
use uam_backend.Session.Rotation.{accepts}
use uam_backend.Identity.Service.{find_user_id_by_primary_email}

-- A migration whose tokens expired before either email was verified.
abbrev expired_account : Account
expired_account = record sample_account {
  new_email_pending = some (text "z@b.c");
  migration_token_expires = some 500;
}

abbrev drawn : MigrationFresh
drawn = record {
  current_secret = text "s1";
  new_secret = text "s2";
  current_code = text "c1";
  new_code = text "c2";
  rehash_salt = [];
}

abbrev request : MigrationRequest
request = record {
  current_password = none;
  requested_email = some (text "y@b.c");
  confirm_override = none;
}

migration-IsStuck_example :
    IsStuck sample_env
      (λ t. t)
      (record {
        available = true;
        production = true;
        now = 1_000;
        fate = answered;
        del_fate = answered;
      })
      sample_moment
      drawn
      sample_fresh
      request
      (text "u1")
      (text "s1")
      expired_account
      (sample_backend expired_account)
unfolding lookup text_eq
migration-IsStuck_example =
    migration-IsStuck sample_env (λ t. t)
      (record {
        available = true;
        production = true;
        now = 1_000;
        fate = answered;
        del_fate = answered;
      })
      sample_moment drawn sample_fresh request (text "u1") (text "s1") (text "y@b.c")
      expired_account (sample_backend expired_account) 500 refl refl refl (omega arith) refl refl

abbrev both_verified_account : Account
both_verified_account = record sample_account {
  new_email_pending = some (text "new@b.c");
  current_email_verified = some true;
  new_email_verified = some true;
}

new_marked-current_marked_example :
    (new_marked (current_marked expired_account) ≡ current_marked (new_marked expired_account))
    × (both_verified (new_marked (current_marked expired_account))
        ≡ is_present expired_account.new_email_pending)
new_marked-current_marked_example = new_marked-current_marked expired_account

index-Distinct : Distinct (sample_backend both_verified_account).index
unfolding text_eq
index-Distinct =
    ((unequal_texts (text "primary_email:new@b.c") (text "primary_email:a@b.c") refl, tt), (tt, tt))

merge_accounts_ends_example :
    let w = sample_backend both_verified_account in
    let (w', reply) =
      merge_accounts sample_env
        (λ t. t)
        sample_moment
        sample_fresh
        (text "u1")
        (text "u2")
        (text "new@b.c")
        both_verified_account
        w in
    (reply.status ≡ 200)
    × (lookup (text "u2") w'.accounts ≡ none)
    × (lookup (text "u2") w'.sessions.users ≡ none)
    × ((b : Account) × (lookup (text "u1") w'.accounts ≡ some b)
        × (b.email ≡ text "new@b.c")
        × (b.previous_email ≡ some (text "a@b.c"))
        × (b.new_email_pending ≡ none)
        × KeepsData both_verified_account b)
    × (version_of sample_env (text "u1") w' ≡ version_of sample_env (text "u1") w + 1)
    × (accepts sample_outside w'.sessions (text "u1") (text "r2") ≡ true)
    × (find_user_id_by_primary_email sample_env.digest 9_000 (text "new@b.c") w'.index
        ≡ some (text "u1"))
unfolding lookup text_eq clashes delete migrated_account moved_account
merge_accounts_ends_example =
    merge_accounts_ends sample_env (λ t. t) sample_moment sample_fresh 9_000 (text "u1") (text "u2")
      (text "new@b.c") both_verified_account sample_row (sample_backend both_verified_account) refl
      index-Distinct refl refl (unequal_texts (text "u2") (text "u1") refl) refl
