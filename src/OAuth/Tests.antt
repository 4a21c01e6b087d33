-- ===== src/OAuth/Tests.antt =====
-- The theorem on OAuth sign-ins at a concrete input.
use uam_backend.Prelude.{
  some, true, text_eq, Distinct, text, lookup, refl, to_lower, trim, trim_start, is_space, ◌≡◌,
  none,
}
use uam_backend.Account.{google}
use uam_backend.Identity.Service.{
  resolve_email_identity, resolve_kinds, find_active, is_active, email_key, normalize_email,
  find_user_id_by_oauth, oauth_key, primary,
}
use uam_backend.Accounts.Samples.{
  sample_backend, sample_account, unequal_texts, sample_env, sample_fresh,
}
use uam_backend.Accounts.World.{clashes}
use uam_backend.OAuth.Strategy.{taken_over, OAuthProfile, signed_in_as}
use uam_backend.OAuth.Takeover.{sign_in_with_takes_over}
use uam_backend.OAuth.SignIn.{shown_name, sign_in_with}

index-Distinct : Distinct (sample_backend sample_account).index
unfolding text_eq
index-Distinct =
    ((unequal_texts (text "primary_email:new@b.c") (text "primary_email:a@b.c") refl, tt), (tt, tt))

abbrev profile : OAuthProfile
profile = record {
  profile_id = text "77";
  profile_email = some (text "a@b.c");
  profile_photo = none;
  profile_name = none;
  profile_username = none;
}

sign_in_with_takes_over_example :
    let w = sample_backend sample_account in
    let taken = taken_over sample_env google (text "77") sample_account in
    let (w', reply) =
      sign_in_with sample_env 1_000 google (some (text "a@b.c")) profile sample_fresh w in
    (reply ≡ signed_in_as (text "u1") taken) × (lookup (text "u1") w'.accounts ≡ some taken)
unfolding resolve_email_identity resolve_kinds find_active is_active email_key normalize_email
    lookup text_eq to_lower trim trim_start is_space find_user_id_by_oauth oauth_key clashes
    taken_over shown_name
sign_in_with_takes_over_example =
    sign_in_with_takes_over sample_env 1_000 b'a' (text "@b.c") google profile sample_fresh
      (sample_backend sample_account)
      (record { resolved_user = text "u1"; match_kind = primary; resolved_verified = some true })
      sample_account refl refl refl refl refl refl refl refl refl refl refl refl index-Distinct
