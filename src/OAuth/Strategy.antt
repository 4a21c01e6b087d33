-- ===== src/OAuth/Strategy.antt =====
-- Which account an OAuth profile signs in to (src/config/passport.ts, src/utils/oauth.util.ts). A user
-- is loaded without its password there, since no projection names that column; `loaded` says so.
use uam_backend.Prelude.{
  none, some, true, Text, Option, Bool, List, not, ℕ, ◌∷◌, if◌then◌else◌, to_lower, ◌||◌, ◌&&◌, [],
  text, text_eq, ◌++◌, lookup,
}
use uam_backend.Account.{local, Account, AuthProvider, non_empty, is_present}
use uam_backend.Accounts.World.{Env, same_provider, is_text, save_account, is_future}
use uam_backend.Accounts.Login.{Worlds}
use uam_backend.Accounts.Email.{owner_account}
use uam_backend.Identity.Service.{
  normalize_email, find_user_id_by_oauth, resolve_email_identity, sync_identity_indexes,
  provider_name, find_user_id_by_primary_email,
}

pub record OAuthProfile : Type 0 where
  pub profile_id : Text
  pub profile_email : Option Text
  pub profile_photo : Option Text
  pub profile_name : Option Text
  pub profile_username : Option Text

-- What becomes of a sign-in: an error's text, or the user with the account.
pub data OAuthAnswer : Type 0 where
  oauth_error : (reason : Text) → OAuthAnswer
  signed_in_as : (id : Text) (account : Account) → OAuthAnswer

-- An email that GitHub lists.
pub record GithubEmailEntry : Type 0 where
  pub address : Text
  pub is_primary : Bool
  pub is_verified : Bool

-- A document of findById without a projection.
unfoldable pub loaded : Account → Account
loaded a = record a { password = none }

unfoldable pub can_oauth_take_over_local_account : Account → Bool
can_oauth_take_over_local_account a = not (is_present a.password) || not a.is_email_verified

unfoldable pub oauth_provider_conflict : Account → AuthProvider → Option Text
oauth_provider_conflict a incoming =
    if not (same_provider a.provider local) && not (same_provider a.provider incoming)
    then some (
        text "This email is registered with "
        ++ provider_name a.provider
        ++ text ". Use that provider to sign in.")
    else if same_provider a.provider local && a.is_email_verified && is_present a.password
    then some (
        text
          "This email uses password login. Sign in with your password, then link OAuth in settings.")
    else none

unfoldable pub first_verified : List GithubEmailEntry → Option Text
first_verified [] = none
first_verified (e ∷ es) =
    let rest = first_verified es in if e.is_verified then some (to_lower e.address) else rest

unfoldable pub first_primary : List GithubEmailEntry → Option Text
first_primary [] = none
first_primary (e ∷ es) =
    let rest = first_primary es in if e.is_primary && e.is_verified then some e.address else rest

-- fetchGitHubVerifiedPrimaryEmail; `none` is a response that is not ok.
unfoldable pub github_email : Option (List GithubEmailEntry) → Option Text
unfolding first_verified first_primary
github_email none = none
github_email (some emails) = elim (non_empty (first_primary emails)) [
  | some email ↦ some (to_lower email)
  | none ↦ first_verified emails
]

module _ (env : Env) where
  open env use {o}

  abbrev found_user : Option Text → Worlds env → Option (Text × Account)
  found_user id w = elim (owner_account env id w) [ none ↦ none | some (j, a) ↦ some (j, loaded a) ]

  -- The columns that a take-over writes; the password stays in the row.
  unfoldable pub taken_over : AuthProvider → Text → Account → Account
  taken_over provider provider_id a = record a {
    provider = provider;
    provider_id = some provider_id;
    is_email_verified = true;
  }

  -- A local account is taken over if that is allowed; `none` for the user is a sign-up, and an
  -- exception ends the sign-in.
  unfoldable pub take_over :
      ℕ
      → AuthProvider
      → Text
      → Text
      → Account
      → Worlds env
      → Option (Worlds env × Option (Text × Account))
  unfolding loaded can_oauth_take_over_local_account taken_over
  take_over now provider provider_id id a w =
      if not (same_provider a.provider local)
      then some (w, some (id, loaded a))
      else if not (can_oauth_take_over_local_account (loaded a))
      then some (w, none)
      else let taken = taken_over provider provider_id a in
        elim (save_account id taken w.accounts) [
          | none ↦ none
          | some accounts ↦ elim (sync_identity_indexes env.digest id taken now w.index) [
            | none ↦ none
            | some index ↦ some (record w { accounts = accounts; index = index }, some (id, taken))
          ]
        ]

  -- After the look-up by email: the old address of a migrated account is followed while it stands.
  unfoldable pub by_email :
      ℕ
      → AuthProvider
      → Text
      → Text
      → Text
      → Account
      → Worlds env
      → Option (Worlds env × Option (Text × Account))
  unfolding take_over loaded
  by_email now provider provider_id email id a w =
      if not (is_text a.previous_email email && not (text_eq a.email email))
      then take_over now provider provider_id id a w
      else if is_future now a.migration_expiry
      then some (w, some (id, loaded a))
      else elim (owner_account env (find_user_id_by_primary_email env.digest now email w.index) w) [
        | none ↦ take_over now provider provider_id id a w
        | some (j, b) ↦ take_over now provider provider_id j b w
      ]

  unfoldable pub find_user_for_oauth :
      ℕ → Text → AuthProvider → Text → Worlds env → Option (Worlds env × Option (Text × Account))
  unfolding by_email loaded
  find_user_for_oauth now email provider provider_id w =
      let normalized = normalize_email email in
      elim (owner_account env (find_user_id_by_oauth provider provider_id w.index) w) [
        | some (j, a) ↦ some (w, some (j, loaded a))
        | none ↦ elim (resolve_email_identity env.digest now normalized w.index) [
          | none ↦ some (w, none)
          | some r ↦ elim (lookup r.resolved_user w.accounts) [
            | none ↦ some (w, none)
            | some a ↦ by_email now provider provider_id normalized r.resolved_user a w
          ]
        ]
      ]
