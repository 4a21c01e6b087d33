-- ===== src/Auth/Versions.antt =====
-- Which access tokens are accepted: the two middlewares, and the token version.
use uam_backend.Prelude.{
  Text, Option, some, none, List, Bool, ◌≡◌, arith, true, lookup, if◌then◌else◌, ◌==◌, ◌+◌, ◌∙◌,
  not, false, refl,
}
use uam_backend.Auth.{
  TokenPayload, AuthAnswer, optional_auth, authenticate, token_version_stale, optional_user,
  check_payload, authenticated, check_user, verify_access_token, UserRow, bearer_token,
  session_expired, or_zero,
}
use uam_backend.Session.{Outside, Sessions, Moment, invalidate_all_sessions, invalidate_row}
use uam_backend.Session.Invalidation.{invalidated-row}

if_not {ℓ} : {A : Type ℓ} (b : Bool) (x y : A) → (if not b then x else y) ≡ (if b then y else x)
if_not true x y = refl
if_not false x y = refl

abbrev pub user_of : AuthAnswer → Option Text
user_of (authenticated id) = some id
user_of _ = none

module _ (jwt_verify : Text → Option TokenPayload) where
  -- The optional middleware attaches a user exactly when the strict one would, and the same one.
  pub optional_auth-authenticate :
      (users : List (Text × UserRow)) (reachable : Bool) (header : Option Text)
      → optional_auth jwt_verify users reachable header
        ≡ user_of (authenticate jwt_verify users reachable header)
  unfolding optional_auth authenticate optional_user check_payload check_user
  optional_auth-authenticate users reachable header = ground arith

  verified :
      (users : List (Text × UserRow)) (header : Option Text) (token : Text) (payload : TokenPayload)
      (row : UserRow)
      → bearer_token header ≡ some token
      → jwt_verify token ≡ some payload
      → payload.is_access ≡ true
      → lookup payload.user_id users ≡ some row
      → authenticate jwt_verify users true header ≡ (
          if token_version_stale payload.tv row.token_version
          then session_expired
          else authenticated payload.user_id)
  unfolding authenticate check_payload check_user verify_access_token
  verified users header token payload row b j a e = ground arith

  -- After all sessions of a known user have been invalidated, and while the database answers, a
  -- header with a valid access token of that user is accepted if the token carries the version after
  -- the one that the row had (a missing one counting as 0), and refused as expired if it carries any
  -- other.
  pub authenticate-invalidate_all_sessions :
      (o : Outside) (s : Sessions o.redis.State) (m : Moment) (header : Option Text) (token : Text)
      (payload : TokenPayload) (row : UserRow)
      → bearer_token header ≡ some token
      → jwt_verify token ≡ some payload
      → payload.is_access ≡ true
      → lookup payload.user_id s.users ≡ some row
      → authenticate jwt_verify (invalidate_all_sessions o s m payload.user_id).users true header
        ≡ (if or_zero payload.tv == or_zero row.token_version + 1
            then authenticated payload.user_id
            else session_expired)
  unfolding token_version_stale invalidate_row
  authenticate-invalidate_all_sessions o s m header token payload row b j a e =
      verified (invalidate_all_sessions o s m payload.user_id).users header token payload _ b j a
        (invalidated-row o s m payload.user_id row e)
      ∙ if_not (or_zero payload.tv == or_zero row.token_version + 1) session_expired
          (authenticated payload.user_id)
