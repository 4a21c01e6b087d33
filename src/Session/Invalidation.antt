-- ===== src/Session/Invalidation.antt =====
-- Ending sessions: all of a user's at once, or the one of a refresh token.
use uam_backend.Prelude.{
  ◌∷◌, Text, Option, ℕ, lookup, ◌≡◌, some, true, [], false, List, ◌+◌, insert, ◌++◌, none, refl,
  arith, lookup-insert_self, ◌∙◌, All, text_eq_refl, ◌≢◌, lookup-insert_ne,
}
use uam_backend.Session.{
  Outside, Sessions, Moment, UserRow, contains, persist_session_tokens, remove_refresh_token,
  invalidate_all_sessions, rotate_session_tokens, revocable, invalidate_row, or_zero, rotate_find,
  publish_token_version, apply_update, find_stored_refresh_token, keep_last, without, max_refresh,
  push_each, push_jti, extract_access_jti,
}
use uam_backend.Session.Rotation.{
  accepts, accepts_row, rotate_find-accepts, rotate_update-none, publish-users, publish_if-users,
}
use uam_backend.Session.Lists.{contains-append_right, contains-keep_last, contains-without_self}

-- An access token's id is among those sent for revocation; an empty one is never sent.
abbrev pub IsSent : List Text → Text → Type 0
IsSent sent [] = Unit
IsSent sent (c ∷ cs) = contains (c ∷ cs) sent ≡ true

module _ (o : Outside) where
  open o use {redis, hash}

  revocable-IsSent :
      (sent : List Text) (jtis : List Text)
      → ((jti : Text) → contains jti (revocable o jtis) ≡ true → contains jti sent ≡ true)
      → All (IsSent sent) jtis
  unfolding revocable contains
  revocable-IsSent sent [] h = tt
  revocable-IsSent sent ([] ∷ jtis) h = (tt, revocable-IsSent sent jtis h)
  revocable-IsSent sent ((c ∷ cs) ∷ jtis) h = (
    h (c ∷ cs) (ground (arith, text_eq_refl (c ∷ cs))),
    revocable-IsSent sent jtis (λ jti k. h jti (ground arith)),
  )

  publish-revoked :
      (s : Sessions redis.State) (m : Moment) (user_id : Text) (version : ℕ)
      → (publish_token_version o s m user_id version).0.revoked ≡ s.revoked
  unfolding publish_token_version
  publish-revoked s m user_id version = ground arith

  pub invalidated-row :
      (s : Sessions redis.State) (m : Moment) (user_id : Text) (row : UserRow)
      → lookup user_id s.users ≡ some row
      → lookup user_id (invalidate_all_sessions o s m user_id).users ≡ some (invalidate_row o row)
  unfolding invalidate_all_sessions
  invalidated-row s m user_id row found =
      let base = record s {
        users = insert user_id (invalidate_row o row) s.users;
        revoked = s.revoked ++ revocable o row.active_access_jtis;
      } in
      rw (found, invalidate_all_sessions)
        (rw (publish-users o base m user_id (or_zero row.token_version + 1))
          (lookup-insert_self user_id _ s.users))

  invalidated-revoked :
      (s : Sessions redis.State) (m : Moment) (user_id : Text) (row : UserRow)
      → lookup user_id s.users ≡ some row
      → (invalidate_all_sessions o s m user_id).revoked
        ≡ s.revoked ++ revocable o row.active_access_jtis
  unfolding invalidate_all_sessions
  invalidated-revoked s m user_id row found =
      let base = record s {
        users = insert user_id (invalidate_row o row) s.users;
        revoked = s.revoked ++ revocable o row.active_access_jtis;
      } in
      rw (found, invalidate_all_sessions)
        (publish-revoked base m user_id (or_zero row.token_version + 1))

  -- Invalidating all sessions of a known user, whatever its row tracks: no refresh token is accepted
  -- any more, and no rotation succeeds; every access token that was tracked under a non-empty id is
  -- sent for revocation; the row holds no tokens, and its token version is one more, a missing one
  -- counting as 0.
  pub invalidate_all_sessions_ends :
      (s : Sessions redis.State) (m m' : Moment) (user_id token access refresh : Text)
      (v : Option ℕ) (row : UserRow)
      → lookup user_id s.users ≡ some row
      → let s' = invalidate_all_sessions o s m user_id in
        (accepts o s' user_id token ≡ false)
        × ((rotate_session_tokens o s' m' user_id token access refresh v).1 ≡ false)
        × All (IsSent s'.revoked) row.active_access_jtis
        × (lookup user_id s'.users
            ≡ some (record {
              refresh_tokens = [];
              active_access_jtis = [];
              token_version = some (or_zero row.token_version + 1);
            }))
  unfolding invalidate_row contains rotate_session_tokens
  invalidate_all_sessions_ends s m m' user_id token access refresh v row found =
      let s' = invalidate_all_sessions o s m user_id in
      let ended : lookup user_id s'.users ≡ some (invalidate_row o row) =
        invalidated-row s m user_id row found in
      let refused = accepts_row o s' user_id token _ ended in
      let lost : rotate_find o s' user_id token ≡ none =
        rw (rotate_find-accepts o s' user_id token, refused) refl in
      (
        refused,
        rotate_update-none o s' m' user_id access refresh v _ lost,
        rw (invalidated-revoked s m user_id row found) (
            revocable-IsSent _ row.active_access_jtis
              (λ jti. contains-append_right jti s.revoked _)),
        ended,
      )

  pub persisted-row :
      (s : Sessions redis.State) (m : Moment) (user_id access refresh : Text) (v : Option ℕ)
      (row : UserRow)
      → lookup user_id s.users ≡ some row
      → lookup user_id (persist_session_tokens o s m user_id access refresh v).users
        ≡ some (record {
          refresh_tokens = keep_last max_refresh (row.refresh_tokens ++ hash refresh ∷ []);
          active_access_jtis =
              push_each (push_jti o (extract_access_jti o access)) row.active_access_jtis;
          token_version = row.token_version;
        })
  unfolding persist_session_tokens apply_update
  persisted-row s m user_id access refresh v row found =
      rw (found, persist_session_tokens)
        (rw (publish_if-users o _ m user_id v) (lookup-insert_self user_id _ s.users))

  pub persisted-other :
      (s : Sessions redis.State) (m : Moment) (user_id j access refresh : Text) (v : Option ℕ)
      (row : UserRow)
      → lookup user_id s.users ≡ some row
      → user_id ≢ j
      → lookup j (persist_session_tokens o s m user_id access refresh v).users ≡ lookup j s.users
  unfolding persist_session_tokens
  persisted-other s m user_id j access refresh v row found n =
      rw (found, persist_session_tokens)
        (rw (publish_if-users o _ m user_id v) (lookup-insert_ne user_id j _ s.users n))

  removed_accepts :
      (s : Sessions redis.State) (user_id refresh : Text) (row : UserRow)
      → lookup user_id s.users ≡ some row
      → contains (hash refresh) row.refresh_tokens ≡ true
      → accepts o (remove_refresh_token o s user_id refresh) user_id refresh ≡ false
  unfolding remove_refresh_token find_stored_refresh_token
  removed_accepts s user_id refresh row found has =
      let row' = record row { refresh_tokens = without (hash refresh) row.refresh_tokens } in
      let removed : lookup user_id (remove_refresh_token o s user_id refresh).users ≡ some row' =
        rw (found, remove_refresh_token, has) (lookup-insert_self user_id _ s.users) in
      accepts_row o (remove_refresh_token o s user_id refresh) user_id refresh row' removed
      ∙ contains-without_self (hash refresh) row.refresh_tokens

  -- For a known user, a refresh token is accepted once its session is stored, and is not once it has
  -- been removed again.
  pub persist_session_tokens-remove :
      (s : Sessions redis.State) (m : Moment) (user_id access refresh : Text) (v : Option ℕ)
      (row : UserRow)
      → lookup user_id s.users ≡ some row
      → let s' = persist_session_tokens o s m user_id access refresh v in
        (accepts o s' user_id refresh ≡ true)
        × (accepts o (remove_refresh_token o s' user_id refresh) user_id refresh ≡ false)
  persist_session_tokens-remove s m user_id access refresh v row found =
      let s' = persist_session_tokens o s m user_id access refresh v in
      let stored = persisted-row s m user_id access refresh v row found in
      let new = contains-keep_last max_refresh (hash refresh) row.refresh_tokens (omega arith) in
      (
        accepts_row o s' user_id refresh _ stored ∙ new,
        removed_accepts s' user_id refresh _ stored new,
      )
