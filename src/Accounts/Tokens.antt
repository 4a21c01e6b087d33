-- ===== src/Accounts/Tokens.antt =====
-- Refreshing a session and signing out (refreshAccessToken and logout of
-- src/controllers/auth.controller.ts, getRefreshFromRequest of src/utils/cookie.util.ts).
use uam_backend.Prelude.{Text, Option, Bool, text, [], some, if◌then◌else◌, none, ◌∷◌, lookup}
use uam_backend.Accounts.World.{Reply, Env, plain, Fresh}
use uam_backend.Account.{non_empty}
use uam_backend.Session.{
  Moment, invalidate_all_sessions, rotate_session_tokens, remove_refresh_token, rotate_find,
}
use uam_backend.Accounts.Login.{Worlds, version_of}

-- What a request brings: the refresh cookie, and the two tokens of its body.
pub record TokenRequest : Type 0 where
  pub cookie : Option Text
  pub request_refresh : Option Text
  pub request_access : Option Text

-- getRefreshFromRequest
unfoldable pub refresh_from_request : Bool → TokenRequest → Option Text
refresh_from_request omit req = elim (non_empty req.cookie) [
  | some token ↦ some token
  | none ↦ if omit then none else non_empty req.request_refresh
]

abbrev pub session_invalidated : Reply
session_invalidated = plain 401 (text "Session invalidated — please sign in again")

module _ (env : Env) where
  open env use {o}

  -- revokeAccessToken, if the token is there and verifies.
  unfoldable pub revoke_prior : Option Text → Worlds env → Worlds env
  revoke_prior token w = elim (non_empty token) [
    | none ↦ w
    | some t ↦
        if env.is_access_token t then record w { revoked_tokens = t ∷ w.revoked_tokens } else w
  ]

  unfoldable pub end_all : Moment → Text → Worlds env → Worlds env
  end_all m id w = record w { sessions = invalidate_all_sessions o w.sessions m id }

  abbrev refreshed : Fresh → Reply
  refreshed fresh = record (plain 200 []) {
    body_access = some fresh.access_token;
    body_refresh = if env.omit_refresh_in_body then none else some fresh.refresh_token;
    refresh_cookie = some fresh.refresh_token;
  }

  unfoldable pub rotate_for :
      Moment → Fresh → TokenRequest → Text → Text → Worlds env → Worlds env × Reply
  unfolding revoke_prior end_all
  rotate_for m fresh req id token w =
      let w1 = revoke_prior req.request_access w in
      let (sessions, rotated) =
        rotate_session_tokens o w1.sessions m id token fresh.access_token fresh.refresh_token
          (some (version_of env id w)) in
      let w2 = record w1 { sessions = sessions } in
      if rotated then (w2, refreshed fresh) else (end_all m id w2, session_invalidated)

  -- A verified token that is not stored was used before: all sessions of its user end.
  unfoldable pub refresh_for :
      Moment → Fresh → TokenRequest → Text → Text → Worlds env → Worlds env × Reply
  unfolding rotate_for end_all
  refresh_for m fresh req id token w = elim (lookup id w.accounts) [
    | none ↦ (w, plain 401 (text "User not found"))
    | some a ↦ elim (rotate_find o w.sessions id token) [
      | none ↦ (end_all m id w, session_invalidated)
      | some stored_key ↦ rotate_for m fresh req id token w
    ]
  ]

  unfoldable pub refresh_access_token :
      Moment → Fresh → TokenRequest → Worlds env → Worlds env × Reply
  unfolding refresh_for refresh_from_request
  refresh_access_token m fresh req w = elim (refresh_from_request env.omit_refresh_in_body req) [
    | none ↦ (w, plain 401 (text "Refresh token is required"))
    | some token ↦ elim (env.refresh_user token) [
      | none ↦ (w, plain 401 (text "Invalid refresh token"))
      | some id ↦ refresh_for m fresh req id token w
    ]
  ]

  unfoldable pub forget : Text → Worlds env → Worlds env
  forget token w = elim (env.refresh_user token) [
    | none ↦ w
    | some id ↦ record w { sessions = remove_refresh_token o w.sessions id token }
  ]

  unfoldable pub forget_optional : Option Text → Worlds env → Worlds env
  unfolding forget
  forget_optional none w = w
  forget_optional (some token) w = forget token w

  -- The refresh token is removed and the access token sent for revocation; the cookies are cleared.
  unfoldable pub logout : TokenRequest → Worlds env → Worlds env × Reply
  unfolding forget_optional refresh_from_request revoke_prior
  logout req w = (
    revoke_prior req.request_access
        (forget_optional (refresh_from_request env.omit_refresh_in_body req) w),
    plain 200 (text "Logged out successfully"),
  )
