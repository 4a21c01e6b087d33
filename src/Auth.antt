-- ===== src/Auth.antt =====
-- The middleware that identifies the user of a request (src/middleware/auth.middleware.ts), with
-- verifyAccessToken of src/services/token.service.ts. Verifying a JWT under the access secret, with
-- its issuer, audience and expiry, is a parameter: its payload, or `none` for an exception.
pub mod Versions
pub mod Tests
use uam_backend.Prelude.{
  Text, Option, Bool, ℕ, drop, List, ◌∷◌, some, not, if◌then◌else◌, ◌==◌, starts_with, lookup, none,
  [], text,
}
use uam_backend.Session.{UserRow, or_zero}

-- The fields of a payload that are read; `is_access` is whether its type is `access`.
pub record TokenPayload : Type 0 where
  pub user_id : Text
  pub is_access : Bool
  pub tv : Option ℕ

-- The answers with status 401, the one with 500, and the user attached to the request.
pub data AuthAnswer : Type 0 where
  token_required token_invalid user_unknown session_expired authentication_error : AuthAnswer
  authenticated : (user_id : Text) → AuthAnswer

pub token_version_stale : Option ℕ → Option ℕ → Bool
token_version_stale payload_tv user_tv = not (or_zero payload_tv == or_zero user_tv)

-- The text up to the first space, and what follows that space, if there is one.
abbrev up_to_space : Text → Text
up_to_space [] = []
up_to_space (c ∷ cs) = let rest = up_to_space cs in if c == b' ' then [] else c ∷ rest

-- split(' ')[1] of a header that starts with `Bearer `, given what follows that.
abbrev after_bearer : Text → Text
after_bearer header = up_to_space (drop 7 header)

-- The token of a header, if it is a bearer token.
unfoldable pub bearer_token : Option Text → Option Text
bearer_token none = none
bearer_token (some header) =
    if starts_with (text "Bearer ") header then some (after_bearer header) else none

module _ (jwt_verify : Text → Option TokenPayload) where
  pub verify_access_token : Text → Option TokenPayload
  verify_access_token token = elim (jwt_verify token) [
    | none ↦ none
    | some payload ↦ if payload.is_access then some payload else none
  ]

  -- `reachable` is whether the database answers.
  check_user : List (Text × UserRow) → Bool → TokenPayload → AuthAnswer
  check_user users reachable payload =
      if not reachable then authentication_error else elim (lookup payload.user_id users) [
        | none ↦ user_unknown
        | some row ↦
            if token_version_stale payload.tv row.token_version
            then session_expired
            else authenticated payload.user_id
      ]

  check_payload : List (Text × UserRow) → Bool → Option TokenPayload → AuthAnswer
  check_payload users reachable none = token_invalid
  check_payload users reachable (some payload) = check_user users reachable payload

  pub authenticate : List (Text × UserRow) → Bool → Option Text → AuthAnswer
  unfolding check_payload
  authenticate users reachable header = elim (bearer_token header) [
    | none ↦ token_required
    | some token ↦ check_payload users reachable (verify_access_token token)
  ]

  optional_user : List (Text × UserRow) → Bool → Option TokenPayload → Option Text
  optional_user users reachable none = none
  optional_user users reachable (some payload) =
      if not reachable then none else elim (lookup payload.user_id users) [
        | none ↦ none
        | some row ↦
            if not (token_version_stale payload.tv row.token_version)
            then some payload.user_id
            else none
      ]

  -- The user attached to the request, if any; the next handler is called in every case.
  pub optional_auth : List (Text × UserRow) → Bool → Option Text → Option Text
  unfolding optional_user
  optional_auth users reachable header = elim (bearer_token header) [
    | none ↦ none
    | some token ↦ optional_user users reachable (verify_access_token token)
  ]
