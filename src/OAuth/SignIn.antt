-- ===== src/OAuth/SignIn.antt =====
-- The two strategies, which differ in where the email and the name come from
-- (src/config/passport.ts).
use uam_backend.Prelude.{
  none, some, true, false, Text, Option, Bool, ℕ, text_eq, text, if◌then◌else◌, not, lookup, ◌&&◌,
  ◌||◌,
}
use uam_backend.Account.{github, AuthProvider, non_empty, Account, is_present}
use uam_backend.OAuth.Strategy.{
  OAuthAnswer, OAuthProfile, oauth_error, oauth_provider_conflict, find_user_for_oauth,
  signed_in_as,
}
use uam_backend.Accounts.World.{Env, Fresh, same_provider, save_account}
use uam_backend.Migration.Verify.{local_part}
use uam_backend.Accounts.Login.{Worlds}
use uam_backend.Accounts.Email.{new_account, insert_account}
use uam_backend.Identity.Service.{sync_identity_indexes}

-- profile.displayName || profile.username for GitHub; Google gives no user name.
unfoldable pub shown_name : AuthProvider → OAuthProfile → Option Text
shown_name github p = elim (non_empty p.profile_name) [
  | some name ↦ some name
  | none ↦ non_empty p.profile_username
]
shown_name provider p = non_empty p.profile_name

-- A picture is taken over by an account that has none, or that is the provider's.
unfoldable pub chosen_avatar : AuthProvider → OAuthProfile → Account → Option Text
chosen_avatar provider p a = elim (non_empty p.profile_photo) [
  | none ↦ a.avatar
  | some photo ↦
      if not (is_present a.avatar) || same_provider a.provider provider
      then some photo
      else a.avatar
]

unfoldable pub chosen_name : AuthProvider → OAuthProfile → Account → Text
unfolding shown_name
chosen_name provider p a = elim (shown_name provider p) [
  | none ↦ a.display_name
  | some name ↦ if same_provider a.provider provider then name else a.display_name
]

abbrev pub same_or_missing : Option Text → Option Text → Bool
same_or_missing none none = true
same_or_missing (some s) (some t) = text_eq s t
same_or_missing _ _ = false

-- The row after the picture and the name were saved.
abbrev with_profile : AuthProvider → OAuthProfile → Account → Account → Account
with_profile provider p a row = record row {
  avatar = chosen_avatar provider p a;
  display_name = chosen_name provider p a;
}

-- The account of a sign-up.
unfoldable pub oauth_account : AuthProvider → Text → OAuthProfile → Account
unfolding shown_name
oauth_account provider email p =
    let name : Text = elim (shown_name provider p) [ none ↦ local_part email | some n ↦ n ] in
    record (new_account email name) {
      avatar = p.profile_photo;
      provider = provider;
      provider_id = some p.profile_id;
      is_email_verified = true;
    }

abbrev pub failed_sign_in : OAuthAnswer
failed_sign_in = oauth_error (text "Sign-in failed")

module _ (env : Env) where
  unfoldable pub sign_up :
      ℕ → AuthProvider → Text → OAuthProfile → Fresh → Worlds env → Worlds env × OAuthAnswer
  unfolding oauth_account
  sign_up now provider email p fresh w =
      let a = oauth_account provider email p in
      elim (insert_account env fresh.new_id a w) [
        | none ↦ (w, failed_sign_in)
        | some w1 ↦ elim (sync_identity_indexes env.digest fresh.new_id a now w1.index) [
          | none ↦ (w1, failed_sign_in)
          | some index ↦ (record w1 { index = index }, signed_in_as fresh.new_id a)
        ]
      ]

  -- A save writes the picture and the name only, over the row as it stands.
  unfoldable pub save_profile :
      ℕ → AuthProvider → OAuthProfile → Text → Account → Worlds env → Worlds env × OAuthAnswer
  unfolding chosen_avatar chosen_name
  save_profile now provider p id a w = elim (lookup id w.accounts) [
    | none ↦ (w, signed_in_as id (with_profile provider p a a))
    | some row ↦
        let changed = with_profile provider p a row in
        elim (save_account id changed w.accounts) [
          | none ↦ (w, failed_sign_in)
          | some accounts ↦ elim (sync_identity_indexes env.digest id changed now w.index) [
            | none ↦ (record w { accounts = accounts }, failed_sign_in)
            | some index ↦
                (record w { accounts = accounts; index = index }, signed_in_as id changed)
          ]
        ]
  ]

  unfoldable pub sign_in_user :
      ℕ → AuthProvider → OAuthProfile → Text → Account → Worlds env → Worlds env × OAuthAnswer
  unfolding oauth_provider_conflict save_profile
  sign_in_user now provider p id a w = elim (oauth_provider_conflict a provider) [
    | some conflict ↦ (w, oauth_error conflict)
    | none ↦
        if same_or_missing (chosen_avatar provider p a) a.avatar
          && text_eq (chosen_name provider p a) a.display_name
        then (w, signed_in_as id a)
        else save_profile now provider p id a w
  ]

  -- The email is Google's first one in lower case, or `github_email`.
  unfoldable pub sign_in_with :
      ℕ → AuthProvider → Option Text → OAuthProfile → Fresh → Worlds env → Worlds env × OAuthAnswer
  unfolding sign_up sign_in_user find_user_for_oauth
  sign_in_with now provider email p fresh w = elim (non_empty email) [
    | none ↦ (w, oauth_error (text "No email found in profile"))
    | some address ↦ elim (find_user_for_oauth env now address provider p.profile_id w) [
      | none ↦ (w, failed_sign_in)
      | some (w1, none) ↦ sign_up now provider address p fresh w1
      | some (w1, some (id, a)) ↦ sign_in_user now provider p id a w1
    ]
  ]
