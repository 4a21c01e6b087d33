-- ===== src/Accounts/Replay.antt =====
-- Presenting a refresh token a second time, and using a reset token.
use uam_backend.Prelude.{some, Text, Option, ◌≡◌, arith, lookup, false, true, ◌≢◌, refl, ap, ◌∙◌}
use uam_backend.Accounts.World.{Env, Fresh}
use uam_backend.Session.{
  contains, invalidate_row, Sessions, Moment, UserRow, invalidate_all_sessions, rotate_find,
}
use uam_backend.Accounts.Tokens.{
  revoke_prior, refresh_access_token, rotate_for, end_all, refresh_for, TokenRequest,
  refresh_from_request, session_invalidated,
}
use uam_backend.Accounts.Login.{Worlds, version_of}
use uam_backend.Session.Rotation.{
  accepts, accepts_row, rotate_find-accepts, rotate_session_tokens_once, known_row,
}
use uam_backend.Session.Invalidation.{invalidated-row}
use uam_backend.Account.{Account}

module _ (env : Env) where
  open env use {o}

  -- No refresh token is accepted for a user whose sessions have been invalidated.
  none_accepted :
      (s : Sessions o.redis.State) (m : Moment) (id token : Text) (row : UserRow)
      → lookup id s.users ≡ some row
      → accepts o (invalidate_all_sessions o s m id) id token ≡ false
  unfolding contains invalidate_row
  none_accepted s m id token row e =
      accepts_row o (invalidate_all_sessions o s m id) id token _ (invalidated-row o s m id row e)

  revoke_prior-sessions :
      (token : Option Text) (w : Worlds env) → (revoke_prior env token w).sessions ≡ w.sessions
  unfolding revoke_prior
  revoke_prior-sessions token w = ground arith

  revoke_prior-accounts :
      (token : Option Text) (w : Worlds env) → (revoke_prior env token w).accounts ≡ w.accounts
  unfolding revoke_prior
  revoke_prior-accounts token w = ground arith

  find-accepted :
      (s : Sessions o.redis.State) (id token : Text)
      → accepts o s id token ≡ true
      → rotate_find o s id token ≡ some (o.hash token)
  find-accepted s id token h = rw (rotate_find-accepts o s id token, h) refl

  -- A request whose refresh token is that of a known user.
  refreshed_stored :
      (m : Moment) (fresh : Fresh) (req : TokenRequest) (w : Worlds env) (id token : Text)
      (a : Account)
      → refresh_from_request env.omit_refresh_in_body req ≡ some token
      → env.refresh_user token ≡ some id
      → lookup id w.accounts ≡ some a
      → accepts o w.sessions id token ≡ true
      → refresh_access_token env m fresh req w ≡ rotate_for env m fresh req id token w
  unfolding refresh_access_token refresh_for
  refreshed_stored m fresh req w id token a e f g h =
      rw (e, refresh_access_token)
        (rw f (rw (g, refresh_for) (rw (find-accepted w.sessions id token h) refl)))

  refreshed_lost :
      (m : Moment) (fresh : Fresh) (req : TokenRequest) (w : Worlds env) (id token : Text)
      (a : Account)
      → refresh_from_request env.omit_refresh_in_body req ≡ some token
      → env.refresh_user token ≡ some id
      → lookup id w.accounts ≡ some a
      → accepts o w.sessions id token ≡ false
      → refresh_access_token env m fresh req w ≡ (end_all env m id w, session_invalidated)
  unfolding refresh_access_token refresh_for
  refreshed_lost m fresh req w id token a e f g h =
      rw (e, refresh_access_token)
        (rw f (rw (g, refresh_for) (rw (rotate_find-accepts o w.sessions id token, h) refl)))

  rotated_for :
      (m : Moment) (fresh : Fresh) (req : TokenRequest) (id token : Text) (w : Worlds env)
      → o.hash token ≢ o.hash fresh.refresh_token
      → accepts o w.sessions id token ≡ true
      → let (w', reply) = rotate_for env m fresh req id token w in
        (reply.status ≡ 200)
        × (reply.refresh_cookie ≡ some fresh.refresh_token)
        × (w'.accounts ≡ w.accounts)
        × (accepts o w'.sessions id fresh.refresh_token ≡ true)
        × (accepts o w'.sessions id token ≡ false)
  unfolding rotate_for
  rotated_for m fresh req id token w n h =
      let same = revoke_prior-sessions req.request_access w in
      let v = some (version_of env id w) in
      let (done, new, gone, failed) =
        rotate_session_tokens_once o w.sessions m m id token fresh.access_token fresh.refresh_token
          fresh.access_token fresh.refresh_token v v n h in
      rw (same, rotate_for)
        (rw done (refl, refl, revoke_prior-accounts req.request_access w, new, gone))

  -- A refresh token that is stored for a user with an account gives a new one once, under another
  -- digest; presenting it again, with whatever moment and new tokens, is answered with status 401
  -- and ends all sessions of the user, the new one included: no refresh token is accepted any more.
  pub refresh_access_token_replayed :
      (m m' : Moment) (fresh fresh' : Fresh) (req : TokenRequest) (w : Worlds env)
      (id token any : Text) (a : Account)
      → refresh_from_request env.omit_refresh_in_body req ≡ some token
      → env.refresh_user token ≡ some id
      → lookup id w.accounts ≡ some a
      → accepts o w.sessions id token ≡ true
      → o.hash token ≢ o.hash fresh.refresh_token
      → let (w1, first) = refresh_access_token env m fresh req w in
        let (w2, second) = refresh_access_token env m' fresh' req w1 in
        (first.status ≡ 200)
        × (accepts o w1.sessions id fresh.refresh_token ≡ true)
        × (second.status ≡ 401)
        × (accepts o w2.sessions id any ≡ false)
  unfolding end_all
  refresh_access_token_replayed m m' fresh fresh' req w id token any a e f g h n =
      let w1 = (rotate_for env m fresh req id token w).0 in
      let (ok, cookie, same, new, gone) = rotated_for m fresh req id token w n h in
      let (row, found) = known_row o w1.sessions id fresh.refresh_token new in
      rw (refreshed_stored m fresh req w id token a e f g h) (
        rw (refreshed_lost m' fresh' req w1 id token a e f (ap (lookup id) same ∙ g) gone)
          (ok, new, refl, none_accepted w1.sessions m' id any row found))
