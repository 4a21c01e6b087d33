-- ===== src/Session/Rotation.antt =====
-- Rotating, persisting and removing refresh tokens.
use uam_backend.Prelude.{
  Text, Bool, ℕ, Option, lookup, ◌≡◌, arith, some, none, false, refl, insert, true, ◌≢◌,
  lookup-insert_self, Option-cases, length, if◌then◌else◌, ◌≤◌, inl, inr, ◌++◌, ◌∷◌, [], ◌∙◌,
}
use uam_backend.Session.{
  Outside, Sessions, publish_token_version, rotate_update, Moment, publish_if, UserRow,
  apply_update, rotation, contains, rotate_find, rotate_session_tokens, find_stored_refresh_token,
  max_refresh, keep_last,
}
use uam_backend.Session.Lists.{
  contains-without_ne, contains-keep_last, contains-without_self, length-without-le,
  length-keep_last-le,
}

module _ (o : Outside) where
  open o use {redis, hash}

  -- Whether a refresh token would be accepted for a user.
  abbrev pub accepts : Sessions redis.State → Text → Text → Bool
  accepts s user_id token = elim (lookup user_id s.users) [
    | none ↦ false
    | some row ↦ contains (hash token) row.refresh_tokens
  ]

  pub publish-users :
      (s : Sessions redis.State) (m : Moment) (user_id : Text) (version : ℕ)
      → (publish_token_version o s m user_id version).0.users ≡ s.users
  unfolding publish_token_version
  publish-users s m user_id version = ground arith

  pub publish_if-users :
      (s : Sessions redis.State) (m : Moment) (user_id : Text) (version : Option ℕ)
      → (publish_if o s m user_id version).users ≡ s.users
  publish_if-users s m user_id none = refl
  publish_if-users s m user_id (some v) = publish-users s m user_id v

  -- What a rotation did to the user's row, when it found the old token.
  pub rotated-row :
      (s : Sessions redis.State) (m : Moment) (user_id key access refresh : Text) (v : Option ℕ)
      (row : UserRow)
      → lookup user_id s.users ≡ some row
      → lookup user_id (rotate_update o s m user_id (some key) access refresh v).0.users
        ≡ some (apply_update (rotation o key access refresh) row)
  unfolding rotate_update
  rotated-row s m user_id key access refresh v row e =
      let s0 = record s {
        users = insert user_id (apply_update (rotation o key access refresh) row) s.users;
      } in
      rw (e, rotate_update)
        (rw (publish_if-users s0 m user_id v) (lookup-insert_self user_id _ s.users))

  updated-true :
      (s : Sessions redis.State) (m : Moment) (user_id key access refresh : Text) (v : Option ℕ)
      (row : UserRow)
      → lookup user_id s.users ≡ some row
      → (rotate_update o s m user_id (some key) access refresh v).1 ≡ true
  unfolding rotate_update
  updated-true s m user_id key access refresh v row e = rw (e, rotate_update) refl

  pub accepts_row :
      (s : Sessions redis.State) (user_id token : Text) (row : UserRow)
      → lookup user_id s.users ≡ some row
      → accepts s user_id token ≡ contains (hash token) row.refresh_tokens
  accepts_row s user_id token row e = rw (e, accepts) refl

  pub known_row :
      (s : Sessions redis.State) (user_id token : Text)
      → accepts s user_id token ≡ true
      → (row : UserRow) × (lookup user_id s.users ≡ some row)
  known_row s user_id token h = elim (Option-cases (lookup user_id s.users)) [
    | inl e ↦ cc (rw (e, accepts) at h)
    | inr found ↦ found
  ]

  pub rotate_find-accepts :
      (s : Sessions redis.State) (user_id token : Text)
      → rotate_find o s user_id token
        ≡ (if accepts s user_id token then some (hash token) else none)
  unfolding rotate_find find_stored_refresh_token
  rotate_find-accepts s user_id token = ground arith

  -- The stored tokens after a rotation of `key`: the new one is there, the old one is not.
  rotation-tokens :
      (row : UserRow) (key access refresh : Text)
      → key ≢ hash refresh
      → let row' = apply_update (rotation o key access refresh) row in
        (contains (hash refresh) row'.refresh_tokens ≡ true)
        × (contains key row'.refresh_tokens ≡ false)
        × (length row'.refresh_tokens ≤ max_refresh)
  unfolding apply_update rotation
  rotation-tokens row key access refresh n =
      let kept = keep_last max_refresh (row.refresh_tokens ++ hash refresh ∷ []) in
      (
        contains-without_ne key (hash refresh) kept n
            ∙ contains-keep_last max_refresh (hash refresh) row.refresh_tokens (omega arith),
        contains-without_self key kept,
        omega (
          arith,
          length-without-le key kept,
          length-keep_last-le max_refresh (row.refresh_tokens ++ hash refresh ∷ []),
        ),
      )

  accepts-update :
      (s : Sessions redis.State) (m : Moment) (user_id old access refresh : Text) (v : Option ℕ)
      → hash old ≢ hash refresh
      → accepts s user_id old ≡ true
      → let (s', done) = rotate_update o s m user_id (some (hash old)) access refresh v in
        (done ≡ true) × (accepts s' user_id refresh ≡ true) × (accepts s' user_id old ≡ false)
  accepts-update s m user_id old access refresh v n h =
      let (row, e) = known_row s user_id old h in
      let s' = (rotate_update o s m user_id (some (hash old)) access refresh v).0 in
      let (new, gone, short) = rotation-tokens row (hash old) access refresh n in
      let found = rotated-row s m user_id (hash old) access refresh v row e in
      (
        updated-true s m user_id (hash old) access refresh v row e,
        accepts_row s' user_id refresh _ found ∙ new,
        accepts_row s' user_id old _ found ∙ gone,
      )

  pub rotate_update-none :
      (s : Sessions redis.State) (m : Moment) (user_id access refresh : Text) (v : Option ℕ)
      (found : Option Text)
      → found ≡ none
      → (rotate_update o s m user_id found access refresh v).1 ≡ false
  unfolding rotate_update
  rotate_update-none s m user_id access refresh v found e = rw (e, rotate_update) refl

  -- Rotating a token that is accepted, into one with another digest, succeeds: then the new token is
  -- accepted, the old one is not, and presenting the old one for a rotation fails.
  pub rotate_session_tokens_once :
      (s : Sessions redis.State) (m m' : Moment) (user_id old access refresh : Text)
      (access' refresh' : Text) (v v' : Option ℕ)
      → hash old ≢ hash refresh
      → accepts s user_id old ≡ true
      → let (s', done) = rotate_session_tokens o s m user_id old access refresh v in
        (done ≡ true)
        × (accepts s' user_id refresh ≡ true)
        × (accepts s' user_id old ≡ false)
        × ((rotate_session_tokens o s' m' user_id old access' refresh' v').1 ≡ false)
  unfolding rotate_session_tokens
  rotate_session_tokens_once s m m' user_id old access refresh access' refresh' v v' n h =
      let s' = (rotate_update o s m user_id (some (hash old)) access refresh v).0 in
      let found : rotate_find o s user_id old ≡ some (hash old) =
        rw (rotate_find-accepts s user_id old, h) refl in
      let (done, new, gone) = accepts-update s m user_id old access refresh v n h in
      let lost : rotate_find o s' user_id old ≡ none =
        rw (rotate_find-accepts s' user_id old, gone) refl in
      rw found (done, new, gone, rotate_update-none s' m' user_id access' refresh' v' _ lost)

  -- If two requests present the same accepted token, and both look it up before either has replaced
  -- it, then both succeed; and the second one's new token is accepted, if its digest is not the old
  -- token's.
  pub rotate_raced :
      (s : Sessions redis.State) (m m' : Moment)
      (user_id old access refresh access' refresh' : Text) (v v' : Option ℕ)
      → hash old ≢ hash refresh'
      → accepts s user_id old ≡ true
      → let first = rotate_find o s user_id old in
        let second = rotate_find o s user_id old in
        let (s', done) = rotate_update o s m user_id first access refresh v in
        let (s'', done') = rotate_update o s' m' user_id second access' refresh' v' in
        (done ≡ true) × (done' ≡ true) × (accepts s'' user_id refresh' ≡ true)
  rotate_raced s m m' user_id old access refresh access' refresh' v v' n h =
      let (row, e) = known_row s user_id old h in
      let row' = apply_update (rotation o (hash old) access refresh) row in
      let s' = (rotate_update o s m user_id (some (hash old)) access refresh v).0 in
      let s'' = (rotate_update o s' m' user_id (some (hash old)) access' refresh' v').0 in
      let e' = rotated-row s m user_id (hash old) access refresh v row e in
      let e'' = rotated-row s' m' user_id (hash old) access' refresh' v' row' e' in
      let (new, gone, short) = rotation-tokens row' (hash old) access' refresh' n in
      let found : rotate_find o s user_id old ≡ some (hash old) =
        rw (rotate_find-accepts s user_id old, h) refl in
      rw found (
        updated-true s m user_id (hash old) access refresh v row e,
        updated-true s' m' user_id (hash old) access' refresh' v' row' e',
        accepts_row s'' user_id refresh' _ e'' ∙ new,
      )
