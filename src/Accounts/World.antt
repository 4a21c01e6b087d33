-- ===== src/Accounts/World.antt =====
-- The state that the handlers share, what they take from outside, and their replies. The columns of
-- a user that sessions are made of are in `sessions`, the others in `accounts`, under the same
-- identifiers.
use uam_backend.Prelude.{
  Text, List, Option, ℕ, Bool, none, some, false, lookup, if◌then◌else◌, text_eq, ltb, ◌∷◌, not,
  insert, [], ◌&&◌, ◌||◌, true,
}
use uam_backend.Session.{Outside, Sessions}
use uam_backend.Account.{local, google, github, Account, AuthProvider}
use uam_backend.Accounts.Passwords.{Hashing}
use uam_backend.Identity.Table.{IndexTable}
use uam_backend.OneTime.Store.{Json, Entry}
use uam_backend.OneTime.EmailLink.{LinkPayload}

pub record Backend (S : Type 0) : Type 0 where
  pub accounts : List (Text × Account)
  pub sessions : Sessions S
  pub index : IndexTable
  pub links : List (Text × Entry LinkPayload)
  pub forms : List (Text × Entry LinkPayload)
  pub polls : List (Text × Entry Text)
  pub revoked_tokens : List Text

-- The outside of sessions; the HMAC digest of the identity index; password hashing; the payload's
-- user of a refresh token that verifies; whether an access token verifies; the start of a time's
-- day; the encoding of email links; and two settings.
pub record Env : Type 1 where
  pub o : Outside
  pub digest : Text → Text
  pub hashing : Hashing
  pub refresh_user : Text → Option Text
  pub is_access_token : Text → Bool
  pub day_of : ℕ → ℕ
  pub json : Json LinkPayload
  pub omit_refresh_in_body : Bool
  pub auto_verify_email : Bool

-- The texts that a request draws at random or has signed: the pair of tokens, a salt, the random
-- secret of an email link and a new user's identifier, and the codes of an
-- email link and of a poll.
pub record Fresh : Type 0 where
  pub access_token : Text
  pub refresh_token : Text
  pub salt : Text
  pub secret : Text
  pub new_id : Text
  pub link_code : Text
  pub poll_token : Text

pub record PublicUser : Type 0 where
  pub id : Text
  pub public_email : Text
  pub public_name : Text
  pub public_avatar : Option Text
  pub public_bio : Option Text
  pub verified_email : Bool

pub record Reply : Type 0 where
  pub status : ℕ
  pub message : Text
  pub code : Option Text
  pub user : Option PublicUser
  pub body_access : Option Text
  pub body_refresh : Option Text
  pub refresh_cookie : Option Text

abbrev pub plain : ℕ → Text → Reply
plain status message = record {
  status = status;
  message = message;
  code = none;
  user = none;
  body_access = none;
  body_refresh = none;
  refresh_cookie = none;
}

abbrev pub coded : ℕ → Text → Text → Reply
coded status message code = record (plain status message) { code = some code }

unfoldable pub public_user : Text → Account → PublicUser
public_user id a = record {
  id = id;
  public_email = a.email;
  public_name = a.display_name;
  public_avatar = a.avatar;
  public_bio = a.bio;
  verified_email = a.is_email_verified;
}

-- publicTokenFields and the refresh cookie.
unfoldable pub signed_in : Bool → ℕ → Text → Fresh → Text → Account → Reply
unfolding public_user
signed_in omit status message fresh id a = record {
  status = status;
  message = message;
  code = none;
  user = some (public_user id a);
  body_access = some fresh.access_token;
  body_refresh = if omit then none else some fresh.refresh_token;
  refresh_cookie = some fresh.refresh_token;
}

-- Two optional texts that are both there and the same.
abbrev pub is_text : Option Text → Text → Bool
is_text none t = false
is_text (some s) t = text_eq s t

abbrev pub same_provider : AuthProvider → AuthProvider → Bool
same_provider local local = true
same_provider google google = true
same_provider github github = true
same_provider _ _ = false

abbrev pub same_optional : Option Text → Option Text → Bool
same_optional (some s) (some t) = text_eq s t
same_optional _ _ = false

-- The table's two unique constraints; a missing provider identifier is equal to none.
unfoldable pub clashes : Text → Account → List (Text × Account) → Bool
clashes id a [] = false
clashes id a ((j, b) ∷ rest) =
    (not (text_eq j id)
      && (text_eq b.email a.email
          || (same_provider b.provider a.provider && same_optional b.provider_id a.provider_id)))
    || clashes id a rest

-- save() of a document that was loaded; `none` is a duplicate key. A row that is gone stays gone.
unfoldable pub save_account :
    Text → Account → List (Text × Account) → Option (List (Text × Account))
unfolding clashes
save_account id a accounts = elim (lookup id accounts) [
  | none ↦ some accounts
  | some old ↦ if clashes id a accounts then none else some (insert id a accounts)
]

-- The first row that a filter takes.
unfoldable pub find_account : (Account → Bool) → List (Text × Account) → Option (Text × Account)
find_account p [] = none
find_account p ((id, a) ∷ rest) =
    let found = find_account p rest in if p a then some (id, a) else found

-- A time that is set and has not come.
abbrev pub is_future : ℕ → Option ℕ → Bool
is_future now none = false
is_future now (some t) = ltb now t
